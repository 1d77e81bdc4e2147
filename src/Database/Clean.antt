-- ===== src/Database/Clean.antt =====
-- Actions that change no table when they fail: one rule for each way in which the handlers are
-- built. A handler that first reads, then runs one transaction, and then only does what cannot fail
-- is such an action.
use go_api_project_template.Prelude.{
  ℕ, ◌≡◌, refl, ◌∙◌, inl, inr, Bool, true, false, ◌||◌, Option, none, some, if◌then◌else◌, if_elim,
  arith,
}
use go_api_project_template.Errs.{Err, Result, ok, err, is_ok}
use go_api_project_template.Database.{
  World, Outcome, done, violation, Exec, continue, pure, raise, attempt, from_result, or_raise, sql,
  run_tx, ◌>>=◌, fail_statement, settle,
}
use go_api_project_template.Database.Returns.{Returns}
use go_api_project_template.Database.Tx.{run_tx-atomic, TxCase}

pub record ReadOnly {D A : Type 0} (m : Exec D A) : Type 0 where
  pub same_db : (w : World D) → (m w).1.db ≡ w.db
  pub same_tx : (w : World D) → (m w).1.in_tx ≡ w.in_tx

-- Outside a transaction, a failure leaves the tables as they were.
pub record Clean {D A : Type 0} (m : Exec D A) : Type 0 where
  pub at : (w : World D) → w.in_tx ≡ false → is_ok (m w).0 ≡ false → (m w).1.db ≡ w.db

module _ {D A : Type 0} where
  pub ReadOnly-pure : (a : A) → ReadOnly {D = D} (pure a)
  unfolding pure
  ReadOnly-pure a = record { same_db = λ w. refl; same_tx = λ w. refl }

  pub ReadOnly-raise : (e : Err) → ReadOnly {D = D} (raise {A = A} e)
  unfolding raise
  ReadOnly-raise e = record { same_db = λ w. refl; same_tx = λ w. refl }

  pub ReadOnly-from_result : (r : Result A) → ReadOnly {D = D} (from_result r)
  unfolding from_result
  ReadOnly-from_result r = record { same_db = λ w. refl; same_tx = λ w. refl }

  pub ReadOnly-or_raise : (e : Err) (o : Option A) → ReadOnly {D = D} (or_raise e o)
  unfolding or_raise
  ReadOnly-or_raise e none = ReadOnly-raise e
  ReadOnly-or_raise e (some a) = ReadOnly-pure a

  pub ReadOnly-attempt : (m : Exec D A) → ReadOnly m → ReadOnly (attempt m)
  unfolding attempt
  ReadOnly-attempt m r = record { same_db = r.same_db; same_tx = r.same_tx }

  pub ReadOnly-if :
      (b : Bool) (m n : Exec D A) → ReadOnly m → ReadOnly n → ReadOnly (if b then m else n)
  ReadOnly-if true m n rm rn = rm
  ReadOnly-if false m n rm rn = rn

  pub ReadOnly-read : (fault : ℕ → Bool) (g : D → A) → ReadOnly (sql fault (λ d. done (g d) d))
  unfolding sql
  ReadOnly-read fault g = record {
    same_db = λ w.
        if_elim (λ (x : Result A × World D). x.1.db ≡ w.db) (w.aborted || fault w.tick) _ _ refl
          refl;
    same_tx = λ w.
        if_elim (λ (x : Result A × World D). x.1.in_tx ≡ w.in_tx) (w.aborted || fault w.tick) _ _
          refl refl;
  }

  pub Clean-ReadOnly : (m : Exec D A) → ReadOnly m → Clean m
  Clean-ReadOnly m r = record { at = λ w out failed. r.same_db w }

  pub Clean-Returns : (m : Exec D A) → Returns m → Clean m
  Clean-Returns m r = record {
    at = λ w out failed. let fine = r.at w in ground (arith, fine, failed);
  }

  pub Clean-if : (b : Bool) (m n : Exec D A) → Clean m → Clean n → Clean (if b then m else n)
  Clean-if true m n cm cn = cm
  Clean-if false m n cm cn = cn

  restored :
      (m : Exec D A) (w : World D) (x : Result A × World D)
      → TxCase m w x
      → is_ok x.0 ≡ false
      → x.1.db ≡ w.db
  restored m w x (inl r) failed = r.restored
  restored m w x (inr c) failed = let fine = c.returned in ground (arith, fine, failed)

  pub Clean-run_tx : (fault : ℕ → Bool) (m : Exec D A) → Clean (run_tx fault m)
  Clean-run_tx fault m = record {
    at = λ w out failed. restored m w (run_tx fault m w) (run_tx-atomic fault m w out) failed;
  }

  -- A statement that fails has changed nothing.
  pub Clean-sql : (fault : ℕ → Bool) (f : D → Outcome D A) → Clean (sql fault f)
  unfolding sql
  Clean-sql fault f = record {
    at = λ w out failed. unchanged (w.aborted || fault w.tick) w (f w.db) failed;
  }
    where
      unchanged :
          (b : Bool) (w : World D) (o : Outcome D A)
          → is_ok (if b then fail_statement Err.internal w else settle o w).0 ≡ false
          → (if b then fail_statement Err.internal w else settle o w).1.db ≡ w.db
      unchanged true w o failed = refl
      unchanged false w (done a d) failed = ground arith
      unchanged false w (violation e) failed = refl

module _ {D A B : Type 0} where
  pub ReadOnly-bind :
      (m : Exec D A) (f : A → Exec D B)
      → ReadOnly m
      → ((a : A) → ReadOnly (f a))
      → ReadOnly (m >>= f)
  unfolding ◌>>=◌
  ReadOnly-bind m f rm rf = record {
    same_db = λ w. next_db (m w).0 (m w).1 ∙ rm.same_db w;
    same_tx = λ w. next_tx (m w).0 (m w).1 ∙ rm.same_tx w;
  }
    where
      next_db : (r : Result A) (w : World D) → (continue r f w).1.db ≡ w.db
      next_db (ok a) w = (rf a).same_db w
      next_db (err e) w = refl

      next_tx : (r : Result A) (w : World D) → (continue r f w).1.in_tx ≡ w.in_tx
      next_tx (ok a) w = (rf a).same_tx w
      next_tx (err e) w = refl

  pub Clean-after-read :
      (m : Exec D A) (f : A → Exec D B) → ReadOnly m → ((a : A) → Clean (f a)) → Clean (m >>= f)
  unfolding ◌>>=◌
  Clean-after-read m f rm cf = record {
    at = λ w out failed. next (m w).0 (m w).1 (rm.same_tx w ∙ out) failed ∙ rm.same_db w;
  }
    where
      next :
          (r : Result A) (w : World D)
          → w.in_tx ≡ false
          → is_ok (continue r f w).0 ≡ false
          → (continue r f w).1.db ≡ w.db
      next (ok a) w out failed = (cf a).at w out failed
      next (err e) w out failed = refl

  pub Clean-before-Returns :
      (m : Exec D A) (f : A → Exec D B) → Clean m → ((a : A) → Returns (f a)) → Clean (m >>= f)
  unfolding ◌>>=◌
  Clean-before-Returns m f cm rf = record {
    at = λ w out failed. next (m w).0 (m w).1 w.db failed (λ bad. cm.at w out bad);
  }
    where
      next :
          (r : Result A) (w : World D) (d : D)
          → is_ok (continue r f w).0 ≡ false
          → (is_ok r ≡ false → w.db ≡ d)
          → (continue r f w).1.db ≡ d
      next (ok a) w d failed h = let fine = (rf a).at w in ground (arith, fine, failed)
      next (err e) w d failed h = h refl

pub ruleset read_rules = (
  ReadOnly-pure, ReadOnly-raise, ReadOnly-from_result, ReadOnly-or_raise, ReadOnly-attempt,
  ReadOnly-if, ReadOnly-read, ReadOnly-bind,
)
