-- ===== src/Payment/Finalize.antt =====
-- internal/features/payment/service.go, `FinalizeSuccess` and `CompensateRefund`: what follows a
-- successful charge.
use go_api_project_template.Prelude.{ℕ, not, List, [], ◌∷◌, if◌then◌else◌}
use go_api_project_template.Errs.{Err, Result, ok, err}
use go_api_project_template.Money
use go_api_project_template.Database.{pure, raise, attempt, run_tx, ◌>>=◌, ◌>>◌}
use go_api_project_template.Inventory.Repository.{deduct}
use go_api_project_template.Order.Service as Orders
use go_api_project_template.Payment.Domain.{PaymentStatus}
use go_api_project_template.Payment.Repository.{get_by_id, update_status, mark_paid, enqueue_refund}
use go_api_project_template.Schema.{Env, Action}

abbrev pub payable : List PaymentStatus
payable =
    PaymentStatus.pending ∷ PaymentStatus.processing ∷ PaymentStatus.requires_review
    ∷ PaymentStatus.cancelled ∷ []

module _ (env : Env) where
  -- The order is in no status that can be paid: the charge is marked for review, the order as
  -- failed, and a refund is queued. The errors of the three calls are logged.
  unfoldable pub late_success : ℕ → ℕ → Action (Unit {0})
  late_success payment order = do
    attempt (update_status env payment PaymentStatus.requires_review (PaymentStatus.success ∷ []))
    attempt (Orders.mark_fulfillment_failed_after_charge env order)
    attempt (enqueue_refund env payment order)
    pure tt

  unfoldable pub deduct_order : ℕ → Action (Unit {0})
  deduct_order order = do items ← Orders.list_item_quantities env order; deduct env items

  -- The branches on the errors of the two updates.
  unfoldable pub finalize_after : ℕ → ℕ → Result (Unit {0}) → Result (Unit {0}) → Action (Unit {0})
  finalize_after payment order (err e) (err f) = raise Err.already_finalized
  finalize_after payment order (ok u) (err f) = late_success payment order
  finalize_after payment order r (ok u) = deduct_order order

  unfoldable pub finalize_body : ℕ → ℕ → Action (Unit {0})
  finalize_body payment order = do
    snap ← Orders.snapshot env order
    p ← get_by_id env payment
    if not (Money.equal p.amount snap.total) then raise Err.amount_mismatch else do
      payment_err ← attempt (mark_paid env payment payable)
      order_err ← attempt (Orders.mark_paid env order)
      finalize_after payment order payment_err order_err

  unfoldable pub finalize_success : ℕ → ℕ → Action (Unit {0})
  finalize_success payment order = run_tx env.fault (finalize_body payment order)

  unfoldable pub compensate_body : ℕ → ℕ → Action (Unit {0})
  compensate_body payment order = do
    attempt (
        update_status env payment PaymentStatus.requires_review
          (PaymentStatus.pending ∷ PaymentStatus.processing ∷ PaymentStatus.success ∷ []))
    attempt (Orders.mark_fulfillment_failed_compensating env order)
    enqueue_refund env payment order

  -- An error of the transaction is logged.
  unfoldable pub compensate_refund : ℕ → ℕ → Action (Unit {0})
  compensate_refund payment order = do
    attempt (run_tx env.fault (compensate_body payment order))
    pure tt
