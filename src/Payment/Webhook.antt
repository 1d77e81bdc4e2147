-- ===== src/Payment/Webhook.antt =====
-- internal/features/payment/service.go, `HandleWebhook`, `resolveWebhookPayment`,
-- `verifySignature` and `CancelPendingByOrderID`. The HMAC and the JSON parser are parameters.
use go_api_project_template.Prelude.{
  ℕ, String, Bool, not, ◌&&◌, ◌||◌, Option, none, some, List, [], ◌∷◌, str_eq, if◌then◌else◌,
}
use go_api_project_template.Errs.{Err, Result, ok, err, is}
use go_api_project_template.Database.{pure, raise, attempt, ◌>>=◌, ◌>>◌}
use go_api_project_template.Order.Service as Orders
use go_api_project_template.Payment.Domain.{Payment, PaymentStatus, among}
use go_api_project_template.Payment.Repository.{
  get_by_id, get_by_gateway_txn_id, update_status, clear_payment_url, cancel_pending_for_order,
}
use go_api_project_template.Payment.Finalize.{finalize_success, compensate_refund}
use go_api_project_template.Schema.{WebhookBody, Env, Action}

-- The statuses in which a webhook has nothing to do.
abbrev pub settled : List PaymentStatus
settled = PaymentStatus.success ∷ PaymentStatus.refunded ∷ PaymentStatus.requires_review ∷ []

module _ (env : Env) where
  unfoldable pub verify_signature : String → String → Bool
  verify_signature body provided =
      not (str_eq provided "") && str_eq (env.hmac env.webhook_secret body) provided

  unfoldable pub found_or_none : Result Payment → Option Payment
  found_or_none (ok p) = some p
  found_or_none (err e) = none

  unfoldable pub by_txn : String → Action (Option Payment)
  by_txn txn =
      if str_eq txn ""
      then pure none
      else (do found ← attempt (get_by_gateway_txn_id env txn); pure (found_or_none found))

  unfoldable pub or_by_txn : String → Result Payment → Action (Option Payment)
  or_by_txn txn (ok p) = pure (some p)
  or_by_txn txn (err e) = by_txn txn

  unfoldable pub resolve_webhook_payment : Option ℕ → String → Action (Option Payment)
  resolve_webhook_payment none txn = by_txn txn
  resolve_webhook_payment (some id) txn = do found ← attempt (get_by_id env id); or_by_txn txn found

  unfoldable pub cancel_pending_by_order_id : ℕ → Action (Unit {0})
  cancel_pending_by_order_id order = cancel_pending_for_order env order

  unfoldable pub webhook_finalized : Payment → Result (Unit {0}) → Action (Unit {0})
  webhook_finalized p (ok u) = pure tt
  webhook_finalized p (err e) =
      if is e Err.already_finalized then pure tt else compensate_refund env p.id p.order_id

  unfoldable pub webhook_success : Payment → Action (Unit {0})
  webhook_success p = do
    finalized ← attempt (finalize_success env p.id p.order_id)
    webhook_finalized p finalized

  -- The payment failed, was cancelled or has expired: every error is logged.
  unfoldable pub webhook_failure : Payment → Action (Unit {0})
  webhook_failure p = do
    attempt (
        update_status env p.id PaymentStatus.cancelled
          (PaymentStatus.pending ∷ PaymentStatus.processing ∷ []))
    attempt (clear_payment_url env p.id)
    attempt (cancel_pending_by_order_id p.order_id)
    attempt (Orders.cancel_unpaid env p.order_id)
    pure tt

  unfoldable pub webhook_event : String → Payment → Action (Unit {0})
  webhook_event event p =
      if among settled p.status
      then pure tt
      else if str_eq event "success"
      then webhook_success p
      else if str_eq event "failed" || str_eq event "cancelled" || str_eq event "expired"
      then webhook_failure p
      else pure tt

  unfoldable pub webhook_found : String → Option Payment → Action (Unit {0})
  webhook_found event none = pure tt
  webhook_found event (some p) = webhook_event event p

  unfoldable pub webhook_parsed : Option WebhookBody → Action (Unit {0})
  webhook_parsed none = pure tt
  webhook_parsed (some body) = do
    p ← resolve_webhook_payment body.payment_id body.transaction_id
    webhook_found body.event p

  unfoldable pub handle_webhook : String → String → Action (Unit {0})
  handle_webhook payload signature =
      if str_eq env.webhook_secret "" || not (verify_signature payload signature)
      then raise Err.unauthorized
      else webhook_parsed (env.parse_webhook payload)
