-- ===== src/Database/Keeps.antt =====
-- Invariants of actions on the database, one rule for each way to build an action.
use go_api_project_template.Prelude.{
  ℕ, ◌≡◌, refl, Bool, true, false, ◌||◌, Option, none, some, if◌then◌else◌, if_elim,
}
use go_api_project_template.Errs.{Err, Result, ok, err}
use go_api_project_template.Database.{
  settle, finish, continue, World, Outcome, done, violation, Exec, pure, raise, attempt,
  from_result, ◌>>=◌, sql, run_tx, or_raise,
}

-- `m` keeps `P` of the tables, whether it returns or fails.
pub record Keeps {D A : Type 0} (P : D → Type 0) (m : Exec D A) : Type 0 where
  pub at : (w : World D) → P w.db → P (m w).1.db

-- What a statement does to the tables keeps `P`.
abbrev pub Holds : {D A : Type 0} → (D → Type 0) → Outcome D A → Type 0
Holds P (done a d) = P d
Holds P (violation e) = Unit

-- The same, as a goal for `search`.
pub record Sound {D A : Type 0} (P : D → Type 0) (o : Outcome D A) : Type 0 where
  pub holds : Holds P o

module _ {D A : Type 0} {P : D → Type 0} where
  pub Sound-done : (a : A) (d : D) → P d → Sound P (done a d)
  Sound-done a d h = record { holds = h }

  pub Sound-violation : (e : Err) → Sound {A = A} P (violation e)
  Sound-violation e = record { holds = tt }

  pub Sound-if :
      (b : Bool) (x y : Outcome D A)
      → (b ≡ true → Sound P x)
      → (b ≡ false → Sound P y)
      → Sound P (if b then x else y)
  Sound-if true x y hx hy = hx refl
  Sound-if false x y hx hy = hy refl

pub ruleset sound_rules = (Sound-done, Sound-violation, Sound-if)

module _ {D A : Type 0} {P : D → Type 0} where
  pub Keeps-pure : (a : A) → Keeps P (pure a)
  unfolding pure
  Keeps-pure a = record { at = λ w h. h }

  pub Keeps-raise : (e : Err) → Keeps P (raise {A = A} e)
  unfolding raise
  Keeps-raise e = record { at = λ w h. h }

  pub Keeps-from_result : (r : Result A) → Keeps P (from_result r)
  unfolding from_result
  Keeps-from_result r = record { at = λ w h. h }

  pub Keeps-or_raise : (e : Err) (o : Option A) → Keeps P (or_raise e o)
  unfolding or_raise
  Keeps-or_raise e none = record { at = λ w h. h }
  Keeps-or_raise e (some a) = record { at = λ w h. h }

  pub Keeps-attempt : (m : Exec D A) → Keeps P m → Keeps P (attempt m)
  unfolding attempt
  Keeps-attempt m k = record { at = λ w h. k.at w h }

  pub Keeps-if : (b : Bool) (m n : Exec D A) → Keeps P m → Keeps P n → Keeps P (if b then m else n)
  Keeps-if true m n km kn = km
  Keeps-if false m n km kn = kn

module _ {D A : Type 0} (P : D → Type 0) where
  abbrev After : Result A × World D → Type 0
  After x = P x.1.db

  settle-Keeps : (o : Outcome D A) (w : World D) → P w.db → Holds P o → After (settle o w)
  settle-Keeps (done a d) w h s = s
  settle-Keeps (violation e) w h s = h

  finish-Keeps :
      (fault : ℕ → Bool) (before : D) (r : Result A) (w : World D)
      → P before
      → P w.db
      → After (finish fault before r w)
  finish-Keeps fault before (ok a) w hb h = if_elim After (w.aborted || fault w.tick) _ _ hb h
  finish-Keeps fault before (err e) w hb h = hb

module _ {D A : Type 0} {P : D → Type 0} where
  pub Keeps-sql :
      (fault : ℕ → Bool) (f : D → Outcome D A)
      → ((d : D) → P d → Holds P (f d))
      → Keeps P (sql fault f)
  unfolding sql
  Keeps-sql fault f s = record {
    at = λ w h.
        if_elim (After P) (w.aborted || fault w.tick) _ _ h
          (settle-Keeps P (f w.db) w h (s w.db h));
  }

  pub Keeps-Sound :
      (fault : ℕ → Bool) (f : D → Outcome D A)
      → ((d : D) → P d → Sound P (f d))
      → Keeps P (sql fault f)
  Keeps-Sound fault f s = Keeps-sql fault f (λ d h. (s d h).holds)

  -- A statement that only reads.
  pub Keeps-read : (fault : ℕ → Bool) (g : D → A) → Keeps P (sql fault (λ d. done (g d) d))
  Keeps-read fault g = Keeps-sql fault _ (λ d h. h)

  pub Keeps-run_tx : (fault : ℕ → Bool) (m : Exec D A) → Keeps P m → Keeps P (run_tx fault m)
  unfolding run_tx
  Keeps-run_tx fault m k = record {
    at = λ w h.
        if_elim (After P) w.in_tx _ _ (k.at w h)
          (if_elim (After P) (fault w.tick) _ _ h (finish-Keeps P fault w.db _ _ h (k.at _ h)));
  }

continue-Keeps :
    {D A B : Type 0} (P : D → Type 0) (r : Result A) (f : A → Exec D B) (w : World D)
    → P w.db
    → ((a : A) → Keeps P (f a))
    → P (continue r f w).1.db
continue-Keeps P (ok a) f w h kf = (kf a).at w h
continue-Keeps P (err e) f w h kf = h

module _ {D A B : Type 0} {P : D → Type 0} where
  pub Keeps-bind :
      (m : Exec D A) (f : A → Exec D B) → Keeps P m → ((a : A) → Keeps P (f a)) → Keeps P (m >>= f)
  unfolding ◌>>=◌
  Keeps-bind m f km kf = record {
    at = λ w h. let (r, w') = m w in continue-Keeps P r f w' (km.at w h) kf;
  }

pub ruleset keeps_rules = (
  Keeps-pure, Keeps-raise, Keeps-from_result, Keeps-or_raise, Keeps-attempt, Keeps-if, Keeps-run_tx,
  Keeps-bind, Keeps-read,
)

-- A statement at one world keeps `P` if what it does to the tables of that world does.
pub sql-Holds :
    {D A : Type 0} (P : D → Type 0) (fault : ℕ → Bool) (f : D → Outcome D A) (w : World D)
    → P w.db
    → Holds P (f w.db)
    → P (sql fault f w).1.db
unfolding sql
sql-Holds P fault f w h s =
    if_elim (After P) (w.aborted || fault w.tick) _ _ h (settle-Keeps P (f w.db) w h s)
