-- ===== src/Payment/Refund.antt =====
-- internal/features/payment/service.go, `Refund` and `SettleRefund`.
use go_api_project_template.Prelude.{
  ℕ, not, ◌&&◌, List, [], ◌∷◌, ltb, length, str_eq, if◌then◌else◌,
}
use go_api_project_template.Errs.{Err}
use go_api_project_template.Database.{pure, raise, attempt, run_tx, ◌>>=◌, ◌>>◌}
use go_api_project_template.Inventory.Levels.{Quantities}
use go_api_project_template.Inventory.Service.{restore, stock_state_of}
use go_api_project_template.Promotion.Service as Coupons
use go_api_project_template.Order.Service as Orders
use go_api_project_template.Order.Service.{FulfilmentSnapshot}
use go_api_project_template.Payment.Domain.{Payment, PaymentStatus, among}
use go_api_project_template.Payment.Gateway.{GatewayRefundRequest}
use go_api_project_template.Payment.Repository.{get_by_id, update_status, enqueue_refund}
use go_api_project_template.Payment.Charge.{call_gateway}
use go_api_project_template.Schema.{Env, Action}

abbrev pub refundable : List PaymentStatus
refundable = PaymentStatus.success ∷ PaymentStatus.requires_review ∷ []

unfoldable pub refund_request : Payment → GatewayRefundRequest
refund_request p = record {
  idempotency_key = p.id;
  transaction_id = p.gateway_txn_id;
  amount = p.amount.amount;
  reason = "auto-refund";
}

module _ (env : Env) where
  unfoldable pub refund : ℕ → Action (Unit {0})
  refund payment = do
    p ← get_by_id env payment
    if not (among refundable p.status)
        then raise Err.bad_request
        else enqueue_refund env payment p.order_id

  -- Stock goes back unless the goods left or it went back before; an error is logged.
  unfoldable pub restore_refunded : FulfilmentSnapshot → Quantities → Action (Unit {0})
  restore_refunded snap items =
      if snap.dispatched_already
      then pure tt
      else if ltb 0 (length items) && not snap.stock_reversed
      then (do attempt (restore env items (stock_state_of snap.stock_deducted)); pure tt)
      else pure tt

  unfoldable pub release_refunded : FulfilmentSnapshot → ℕ → Action (Unit {0})
  release_refunded snap order =
      if not (str_eq snap.coupon_code "")
      then (do attempt (Coupons.release env order); pure tt)
      else pure tt

  unfoldable pub settle_body : ℕ → ℕ → Action (Unit {0})
  settle_body payment order = do
    snap ← Orders.fulfilment_snapshot env order
    attempt (update_status env payment PaymentStatus.refunded refundable)
    attempt (Orders.mark_refunded env order)
    items ← Orders.list_item_quantities env order
    restore_refunded snap items
    release_refunded snap order

  unfoldable pub settle_refund : ℕ → ℕ → Action (Unit {0})
  settle_refund payment order = do
    p ← get_by_id env payment
    if not (among refundable p.status) then raise Err.not_refundable else do
      call_gateway (λ n. env.gateway_refund n (refund_request p))
      run_tx env.fault (settle_body payment order)
