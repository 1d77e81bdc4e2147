-- ===== src/Database/Tx.antt =====
-- What `WithTx` of internal/platform/database/transaction.go promises of a transaction's body.
use go_api_project_template.Prelude.{
  ℕ, ◌+◌, ◌≡◌, refl, ◌⊎◌, inl, inr, Bool, true, false, ◌||◌, if◌then◌else◌, Bool-cases, arith,
}
use go_api_project_template.Errs.{Err, Result, ok, err, is_ok}
use go_api_project_template.Database.{World, Exec, finish, run_tx, begin_tx}

-- The world in which the body of a new transaction starts.
abbrev pub opened : {D : Type 0} → World D → World D
opened w = record w { tick = w.tick + 1; in_tx = true; aborted = false }

module _ {D A : Type 0} where
  -- The call failed, and the tables are as before.
  pub record RolledBack (before : World D) (after : Result A × World D) : Type 0 where
    pub failed : is_ok after.0 ≡ false
    pub restored : after.1.db ≡ before.db
    pub closed : after.1.in_tx ≡ false

  -- The body returned, no statement of it had failed, and its result and its tables are those of
  -- the call.
  pub record Committed (body after : Result A × World D) : Type 0 where
    pub returned : is_ok after.0 ≡ true
    pub same_result : after.0 ≡ body.0
    pub same_db : after.1.db ≡ body.1.db
    pub healthy : body.1.aborted ≡ false
    pub closed : after.1.in_tx ≡ false

  finish-cases :
      (fault : ℕ → Bool) (before : World D) (r : Result A) (w : World D)
      → RolledBack before (finish fault before.db r w)
        ⊎ Committed (r, w) (finish fault before.db r w)
  finish-cases fault before (err e) w =
      inl (record { failed = refl; restored = refl; closed = refl })
  finish-cases fault before (ok a) w = elim (Bool-cases (w.aborted || fault w.tick)) [
    | inl bad ↦ rw bad (inl (record { failed = refl; restored = refl; closed = refl }))
    | inr good ↦ rw good (
        inr (record {
          returned = refl;
          same_result = refl;
          same_db = refl;
          healthy = ground arith;
          closed = refl;
        }))
  ]

  abbrev pub TxCase : Exec D A → World D → Result A × World D → Type 0
  TxCase m w x = RolledBack w x ⊎ Committed (m (opened w)) x

  begin_tx-atomic :
      (fault : ℕ → Bool) (m : Exec D A) (w : World D)
      → w.in_tx ≡ false
      → (b : Bool)
      → TxCase m w (
          if b
          then (err Err.internal, record w { tick = w.tick + 1 })
          else finish fault w.db (m (opened w)).0 (m (opened w)).1)
  begin_tx-atomic fault m w out true = inl (record { failed = refl; restored = refl; closed = out })
  begin_tx-atomic fault m w out false = finish-cases fault w (m (opened w)).0 (m (opened w)).1

  joined-or-begun :
      (b : Bool) (m : Exec D A) (w : World D) (x y : Result A × World D)
      → b ≡ false
      → TxCase m w y
      → TxCase m w (if b then x else y)
  joined-or-begun true m w x y e h = ground arith
  joined-or-begun false m w x y e h = h

  -- A call of `Run` outside a transaction either fails and leaves the tables as they were, or
  -- returns what its body returns with the tables that its body left, and then no statement of the
  -- body had failed; in both cases the transaction is over.
  pub run_tx-atomic :
      (fault : ℕ → Bool) (m : Exec D A) (w : World D)
      → w.in_tx ≡ false
      → TxCase m w (run_tx fault m w)
  unfolding run_tx begin_tx
  run_tx-atomic fault m w out =
      joined-or-begun w.in_tx m w _ _ out (begin_tx-atomic fault m w out (fault w.tick))
