-- ===== src/Database.antt =====
-- internal/platform/database/transaction.go, and what a statement of a repository does.
-- A handler is an action on a world: the committed or running database, a count of the statements
-- sent so far, and the state of the current transaction. Each statement may fail for a reason
-- outside the program (`fault n` says so of the n-th one); inside a transaction every failure
-- aborts it, and then each later statement fails until the rollback. A commit may fail in the same
-- way, and a commit of an aborted transaction rolls back and reports an error.
pub mod Keeps
pub mod Returns
pub mod Tx
pub mod Clean
pub mod Ensures
pub mod Leads
use go_api_project_template.Prelude.{
  ℕ, ◌+◌, Bool, true, false, ◌||◌, Option, none, some, if◌then◌else◌,
}
use go_api_project_template.Errs.{Err, Result, ok, err}

pub record World (D : Type 0) : Type 0 where
  pub db : D
  pub tick : ℕ
  pub in_tx : Bool
  pub aborted : Bool

-- What the database answers to a statement: a value and the new tables, or a violated constraint,
-- with the error that the repository returns for it.
pub data Outcome (D A : Type 0) : Type 0 where
  done : A → D → Outcome D A
  violation : Err → Outcome D A

abbrev pub Exec : Type 0 → Type 0 → Type 0
Exec D A = World D → Result A × World D

module _ {D A : Type 0} where
  unfoldable pub pure : A → Exec D A
  pure a w = (ok a, w)

  unfoldable pub raise : Err → Exec D A
  raise e w = (err e, w)

  -- A call whose error the caller looks at, or logs and drops.
  unfoldable pub attempt : Exec D A → Exec D (Result A)
  attempt m w = let (r, w') = m w in (ok r, w')

  -- What a result in hand says.
  unfoldable pub from_result : Result A → Exec D A
  from_result r w = (r, w)

module _ {D A B : Type 0} where
  abbrev continue : Result A → (A → Exec D B) → Exec D B
  continue (ok a) f w = f a w
  continue (err e) f w = (err e, w)

  infixl 5 ◌>>=◌ ◌>>◌
  unfoldable pub ◌>>=◌ : Exec D A → (A → Exec D B) → Exec D B
  ◌>>=◌ m f w = let (r, w') = m w in continue r f w'

  abbrev pub ◌>>◌ : Exec D A → Exec D B → Exec D B
  m >> n = m >>= λ _. n

module _ {D A : Type 0} where
  -- A failed statement leaves the tables alone, and aborts the transaction if there is one.
  abbrev fail_statement : Err → World D → Result A × World D
  fail_statement e w = (err e, record w { tick = w.tick + 1; aborted = w.in_tx })

  abbrev settle : Outcome D A → World D → Result A × World D
  settle (done a d) w = (ok a, record w { db = d; tick = w.tick + 1 })
  settle (violation e) w = fail_statement e w

  -- One statement through `database.PrimaryDB`.
  unfoldable pub sql : (ℕ → Bool) → (D → Outcome D A) → Exec D A
  sql fault statement w =
      if w.aborted || fault w.tick then fail_statement Err.internal w else settle (statement w.db) w

  abbrev roll_back : D → Err → World D → Result A × World D
  roll_back before e w = (err e, record w { db = before; in_tx = false; aborted = false })

  abbrev commit : (ℕ → Bool) → D → A → World D → Result A × World D
  commit fault before a w =
      if w.aborted || fault w.tick
      then roll_back before Err.internal (record w { tick = w.tick + 1 })
      else (ok a, record w { tick = w.tick + 1; in_tx = false })

  abbrev pub finish : (ℕ → Bool) → D → Result A → World D → Result A × World D
  finish fault before (ok a) w = commit fault before a w
  finish fault before (err e) w = roll_back before e w

  -- `WithTx` where no transaction is open: begin, run, then commit or roll back.
  unfoldable pub begin_tx : (ℕ → Bool) → Exec D A → Exec D A
  begin_tx fault m w =
      if fault w.tick
      then (err Err.internal, record w { tick = w.tick + 1 })
      else (let (r, w') = m (record w { tick = w.tick + 1; in_tx = true; aborted = false }) in
          finish fault w.db r w')

  -- `TxRunner.Run`: a call inside a transaction joins it.
  unfoldable pub run_tx : (ℕ → Bool) → Exec D A → Exec D A
  unfolding begin_tx
  run_tx fault m w = if w.in_tx then m w else begin_tx fault m w

-- A statement's value where rows may be missing: `pgx.ErrNoRows` is an error of the caller's choice.
unfoldable pub or_raise : {D A : Type 0} → Err → Option A → Exec D A
unfolding raise pure
or_raise e none = raise e
or_raise e (some a) = pure a
