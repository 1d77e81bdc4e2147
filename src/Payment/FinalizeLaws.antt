-- ===== src/Payment/FinalizeLaws.antt =====
-- What a failing statement does to `FinalizeSuccess` of internal/features/payment/service.go.
use go_api_project_template.Prelude.{ℕ, ◌+◌, ◌≡◌, refl, true, false, some, find}
use go_api_project_template.Errs.{Err, err}
use go_api_project_template.Money
use go_api_project_template.Database.{
  World, pure, raise, attempt, or_raise, sql, run_tx, begin_tx, ◌>>=◌,
}
use go_api_project_template.Order.Repository as OrderRows
use go_api_project_template.Order.Service as Orders
use go_api_project_template.Payment.Repository as Payments
use go_api_project_template.Payment.Finalize.{finalize_success, finalize_body, finalize_after}
use go_api_project_template.Schema.{OrderRow, PaymentRow, Db, Env, clock}

-- A statement of the transaction: the two that read, and the first update.
pub data Statement : Type 0 where
  read_order read_payment mark_paid : Statement

-- It fails, and the ones before it do not.
abbrev pub FailsAt : Env → World Db → Statement → Type 0
FailsAt env w read_order = env.fault (w.tick + 1) ≡ true
FailsAt env w read_payment = (env.fault (w.tick + 1) ≡ false) × (env.fault (w.tick + 1 + 1) ≡ true)
FailsAt env w mark_paid =
    (env.fault (w.tick + 1) ≡ false)
    × (env.fault (w.tick + 1 + 1) ≡ false)
    × (env.fault (w.tick + 1 + 1 + 1) ≡ true)

abbrev pub reported : Statement → Err
reported read_order = Err.internal
reported read_payment = Err.internal
reported mark_paid = Err.already_finalized

-- The count of statements afterwards: the update of the order is sent after that of the payment.
abbrev pub sent : Statement → ℕ → ℕ
sent read_order t = t + 1 + 1
sent read_payment t = t + 1 + 1 + 1
sent mark_paid t = t + 1 + 1 + 1 + 1 + 1

-- If the order and the payment are there with the same amount, and the statement that reads the order
-- or the one that reads the payment fails, then `FinalizeSuccess` reports an internal error; but if the
-- statement that marks the payment as paid fails, it goes on to the order, in the transaction that can
-- only be rolled back, and reports that the payment was already finalized. In each case the tables stay
-- as they were, with the payment and the order in the statuses that they had.
pub finalize_success-misreports :
    (env : Env) (payment order : ℕ) (o : OrderRow) (p : PaymentRow) (w : World Db) (s : Statement)
    → w.in_tx ≡ false
    → env.fault w.tick ≡ false
    → FailsAt env w s
    → find (OrderRows.has_id order) w.db.orders ≡ some o
    → find (Payments.has_id payment) w.db.payments ≡ some p
    → Money.equal (Payments.scan_payment p).amount (OrderRows.scan_order o).total ≡ true
    → finalize_success env payment order w
      ≡ (err (reported s), record w { tick = sent s w.tick; in_tx = false; aborted = false })
unfolding finalize_success finalize_body finalize_after run_tx begin_tx sql ◌>>=◌ pure raise attempt
    or_raise Orders.snapshot Orders.mark_paid Orders.apply OrderRows.apply OrderRows.get_by_id
    Payments.get_by_id Payments.mark_paid clock Orders.placed_of Orders.fulfilment_snapshot
finalize_success-misreports env payment order o p w read_order out begins f eo ep same =
    rw (out, begins, f) refl
finalize_success-misreports env payment order o p w read_payment out begins f eo ep same =
    rw (out, begins, f.0, eo, f.1) refl
finalize_success-misreports env payment order o p w mark_paid out begins f eo ep same =
    rw (out, begins, f.0, eo, f.1, ep, same, f.2) refl
