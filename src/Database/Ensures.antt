-- ===== src/Database/Ensures.antt =====
-- What holds of the tables and the value where an action returns, one rule for each way to build an
-- action. An action that fails ensures everything.
use go_api_project_template.Prelude.{
  ℕ, ◌≡◌, refl, Bool, true, false, ◌||◌, Option, none, some, if◌then◌else◌, if_elim,
}
use go_api_project_template.Errs.{Err, Result, ok, err}
use go_api_project_template.Database.{
  continue, settle, World, Outcome, done, violation, Exec, pure, raise, ◌>>=◌, sql, or_raise,
}

-- What a result promises of the tables beside it.
abbrev pub Promise : {D A : Type 0} → (A → D → Type 0) → Result A → D → Type 0
Promise Q (ok a) d = Q a d
Promise Q (err e) d = Unit

abbrev pub Settled : {D A : Type 0} → (A → D → Type 0) → Outcome D A → Type 0
Settled Q (done a d) = Q a d
Settled Q (violation e) = Unit

-- From tables with `P`, a value `a` is returned only together with tables that have `Q a`.
pub record Ensures {D A : Type 0} (P : D → Type 0) (m : Exec D A) (Q : A → D → Type 0)
    : Type 0 where
  pub at : (w : World D) → P w.db → Promise Q (m w).0 (m w).1.db

settle-Promise :
    {D A : Type 0} (Q : A → D → Type 0) (o : Outcome D A) (w : World D)
    → Settled Q o
    → Promise Q (settle o w).0 (settle o w).1.db
settle-Promise Q (done a d) w s = s
settle-Promise Q (violation e) w s = tt

continue-Promise :
    {D A B : Type 0} (R : B → D → Type 0) (Q : A → D → Type 0) (r : Result A) (f : A → Exec D B)
    (w : World D)
    → Promise Q r w.db
    → ((a : A) → Ensures (Q a) (f a) R)
    → Promise R (continue r f w).0 (continue r f w).1.db
continue-Promise R Q (ok a) f w p kf = (kf a).at w p
continue-Promise R Q (err e) f w p kf = tt

module _ {D A : Type 0} {P : D → Type 0} {Q : A → D → Type 0} where
  pub Ensures-pure : (a : A) → ((d : D) → P d → Q a d) → Ensures P (pure a) Q
  unfolding pure
  Ensures-pure a h = record { at = λ w p. h w.db p }

  pub Ensures-raise : (e : Err) → Ensures P (raise e) Q
  unfolding raise
  Ensures-raise e = record { at = λ w p. tt }

  pub Ensures-if :
      (b : Bool) (m n : Exec D A) → Ensures P m Q → Ensures P n Q → Ensures P (if b then m else n) Q
  Ensures-if true m n km kn = km
  Ensures-if false m n km kn = kn

  pub Ensures-sql :
      (fault : ℕ → Bool) (f : D → Outcome D A)
      → ((d : D) → P d → Settled Q (f d))
      → Ensures P (sql fault f) Q
  unfolding sql
  Ensures-sql fault f s = record {
    at = λ w p.
        if_elim (λ (x : Result A × World D). Promise Q x.0 x.1.db) (w.aborted || fault w.tick) _ _
          tt (settle-Promise Q (f w.db) w (s w.db p));
  }

  -- The row that was asked for.
  pub Ensures-or_raise :
      (e : Err) (o : Option A)
      → ((a : A) → o ≡ some a → (d : D) → P d → Q a d)
      → Ensures P (or_raise e o) Q
  unfolding or_raise
  Ensures-or_raise e none h = Ensures-raise e
  Ensures-or_raise e (some a) h = Ensures-pure a (h a refl)

module _ {D A B : Type 0} {P : D → Type 0} {R : B → D → Type 0} where
  pub Ensures-bind :
      (Q : A → D → Type 0) (m : Exec D A) (f : A → Exec D B)
      → Ensures P m Q
      → ((a : A) → Ensures (Q a) (f a) R)
      → Ensures P (m >>= f) R
  unfolding ◌>>=◌
  Ensures-bind Q m f km kf = record {
    at = λ w p. continue-Promise R Q (m w).0 f (m w).1 (km.at w p) kf;
  }

continue-ok :
    {D A B : Type 0} (r : Result A) (f : A → Exec D B) (w : World D) (b : B)
    → (continue r f w).0 ≡ ok b
    → (a : A) × (r ≡ ok a) × ((f a w).0 ≡ ok b)
continue-ok (ok a) f w b h = (a, refl, h)
continue-ok (err e) f w b h = absurd (cc)

-- A sequence that returns has returned at its first part.
pub bind-ok :
    {D A B : Type 0} (m : Exec D A) (f : A → Exec D B) (w : World D) (b : B)
    → ((m >>= f) w).0 ≡ ok b
    → (a : A) × ((m w).0 ≡ ok a) × ((f a (m w).1).0 ≡ ok b)
unfolding ◌>>=◌
bind-ok m f w b h = continue-ok (m w).0 f (m w).1 b h

pub pure-bind : {D A B : Type 0} (a : A) (f : A → Exec D B) (w : World D) → (pure a >>= f) w ≡ f a w
unfolding pure ◌>>=◌
pure-bind a f w = refl
