-- ===== src/System/Keeps/Charges.antt =====
-- Charges, webhooks and refunds keep an invariant that satisfies the laws.
use go_api_project_template.Prelude.{ℕ, String, List, [], ◌∷◌, Option, none, some}
use go_api_project_template.Errs.{Result, ok, err}
use go_api_project_template.Database.Keeps.{Keeps, Keeps-sql, Keeps-bind, keeps_rules}
use go_api_project_template.Inventory.Levels.{Quantities}
use go_api_project_template.Order.Service as Orders
use go_api_project_template.Order.Service.{FulfilmentSnapshot}
use go_api_project_template.Payment.Domain.{Payment}
use go_api_project_template.Payment.Gateway.{GatewayChargeResponse}
use go_api_project_template.Payment.Repository as Repository
use go_api_project_template.Payment.Finalize as Finalize
use go_api_project_template.Payment.Charge as Charge
use go_api_project_template.Payment.Charge.{ChargeRequest}
use go_api_project_template.Payment.Webhook as Webhook
use go_api_project_template.Payment.Refund as Refund
use go_api_project_template.Schema.{OrderRow, PaymentRow, WebhookBody, Env}
use go_api_project_template.System.Laws.{Laws, Of}
use go_api_project_template.System.Keeps.Orders.{cancel_unpaid-Keeps}
use go_api_project_template.System.Keeps.Payments.{payment_base}

module _ {Q : List OrderRow → List PaymentRow → Type 0} (laws : Laws Q) (env : Env) where
  quantities-Keeps : (id : ℕ) → Keeps (Of Q) (Orders.list_item_quantities env id)
  unfolding Orders.list_item_quantities
  quantities-Keeps id = search payment_base

  late_success-Keeps : (p o : ℕ) → Keeps (Of Q) (Finalize.late_success env p o)
  unfolding Finalize.late_success Orders.mark_fulfillment_failed_after_charge
  late_success-Keeps p o = search payment_base depth 9

  deduct_order-Keeps : (o : ℕ) → Keeps (Of Q) (Finalize.deduct_order env o)
  unfolding Finalize.deduct_order
  deduct_order-Keeps o = search (payment_base, quantities-Keeps)

  finalize_after-Keeps :
      (p o : ℕ) (r s : Result (Unit {0})) → Keeps (Of Q) (Finalize.finalize_after env p o r s)
  unfolding Finalize.finalize_after
  finalize_after-Keeps p o (err e) (err f) = search keeps_rules
  finalize_after-Keeps p o (ok u) (err f) = late_success-Keeps p o
  finalize_after-Keeps p o (ok u) (ok v) = deduct_order-Keeps o
  finalize_after-Keeps p o (err e) (ok v) = deduct_order-Keeps o

  pub finalize-Keeps : (p o : ℕ) → Keeps (Of Q) (Finalize.finalize_success env p o)
  unfolding Finalize.finalize_success Finalize.finalize_body Orders.mark_paid
  finalize-Keeps p o = search (payment_base, finalize_after-Keeps) depth 12

  pub compensate-Keeps : (p o : ℕ) → Keeps (Of Q) (Finalize.compensate_refund env p o)
  unfolding Finalize.compensate_refund Finalize.compensate_body
      Orders.mark_fulfillment_failed_compensating
  compensate-Keeps p o = search payment_base depth 12

  payment_for-Keeps :
      (req : ChargeRequest) (r : Result Payment) → Keeps (Of Q) (Charge.payment_for env req r)
  unfolding Charge.payment_for
  payment_for-Keeps req (ok p) = search payment_base
  payment_for-Keeps req (err e) = search payment_base

  after_finalize-Keeps :
      (p o : ℕ) (r : Result (Unit {0})) → Keeps (Of Q) (Charge.after_finalize env p o r)
  unfolding Charge.after_finalize
  after_finalize-Keeps p o (ok u) = search keeps_rules
  after_finalize-Keeps p o (err e) = search (keeps_rules, compensate-Keeps)

  charged_now-Keeps : (p o : ℕ) → Keeps (Of Q) (Charge.charged_now env p o)
  unfolding Charge.charged_now
  charged_now-Keeps p o = search (keeps_rules, finalize-Keeps, after_finalize-Keeps)

  charge_pending-Keeps : (p : ℕ) (url : String) → Keeps (Of Q) (Charge.charge_pending env p url)
  unfolding Charge.charge_pending
  charge_pending-Keeps p url = search payment_base

  dispatch-Keeps : (p o : ℕ) (r : GatewayChargeResponse) → Keeps (Of Q) (Charge.dispatch env p o r)
  unfolding Charge.dispatch
  dispatch-Keeps p o r = search (keeps_rules, charged_now-Keeps, charge_pending-Keeps)

  pub charge-Keeps : (req : ChargeRequest) → Keeps (Of Q) (Charge.charge env req)
  unfolding Charge.charge
  charge-Keeps req = search (payment_base, payment_for-Keeps, dispatch-Keeps) depth 9

  by_txn-Keeps : (txn : String) → Keeps (Of Q) (Webhook.by_txn env txn)
  unfolding Webhook.by_txn Repository.get_by_gateway_txn_id
  by_txn-Keeps txn = search keeps_rules depth 9

  or_by_txn-Keeps : (txn : String) (r : Result Payment) → Keeps (Of Q) (Webhook.or_by_txn env txn r)
  unfolding Webhook.or_by_txn
  or_by_txn-Keeps txn (ok p) = search keeps_rules
  or_by_txn-Keeps txn (err e) = by_txn-Keeps txn

  resolve-Keeps :
      (id : Option ℕ) (txn : String) → Keeps (Of Q) (Webhook.resolve_webhook_payment env id txn)
  unfolding Webhook.resolve_webhook_payment
  resolve-Keeps none txn = by_txn-Keeps txn
  resolve-Keeps (some id) txn = search (payment_base, or_by_txn-Keeps)

  cancel_jobs-Keeps : (ids : List ℕ) → Keeps (Of Q) (Repository.cancel_jobs env ids)
  unfolding Repository.cancel_jobs
  cancel_jobs-Keeps [] = search keeps_rules
  cancel_jobs-Keeps (id ∷ ids) =
      Keeps-bind _ _ (Keeps-sql env.fault _ (λ d h. h)) (λ u. cancel_jobs-Keeps ids)

  pub cancel_pending-Keeps : (o : ℕ) → Keeps (Of Q) (Webhook.cancel_pending_by_order_id env o)
  unfolding Webhook.cancel_pending_by_order_id Repository.cancel_pending_for_order
  cancel_pending-Keeps o = search (keeps_rules, cancel_jobs-Keeps)

  webhook_finalized-Keeps :
      (p : Payment) (r : Result (Unit {0})) → Keeps (Of Q) (Webhook.webhook_finalized env p r)
  unfolding Webhook.webhook_finalized
  webhook_finalized-Keeps p (ok u) = search keeps_rules
  webhook_finalized-Keeps p (err e) = search (keeps_rules, compensate-Keeps)

  webhook_success-Keeps : (p : Payment) → Keeps (Of Q) (Webhook.webhook_success env p)
  unfolding Webhook.webhook_success
  webhook_success-Keeps p = search (keeps_rules, finalize-Keeps, webhook_finalized-Keeps)

  webhook_failure-Keeps : (p : Payment) → Keeps (Of Q) (Webhook.webhook_failure env p)
  unfolding Webhook.webhook_failure
  webhook_failure-Keeps p =
      search (payment_base, cancel_pending-Keeps, cancel_unpaid-Keeps) depth 12

  webhook_event-Keeps :
      (event : String) (p : Payment) → Keeps (Of Q) (Webhook.webhook_event env event p)
  unfolding Webhook.webhook_event
  webhook_event-Keeps event p = search (keeps_rules, webhook_success-Keeps, webhook_failure-Keeps)

  webhook_found-Keeps :
      (event : String) (p : Option Payment) → Keeps (Of Q) (Webhook.webhook_found env event p)
  unfolding Webhook.webhook_found
  webhook_found-Keeps event none = search keeps_rules
  webhook_found-Keeps event (some p) = webhook_event-Keeps event p

  webhook_parsed-Keeps : (b : Option WebhookBody) → Keeps (Of Q) (Webhook.webhook_parsed env b)
  unfolding Webhook.webhook_parsed
  webhook_parsed-Keeps none = search keeps_rules
  webhook_parsed-Keeps (some b) = search (keeps_rules, resolve-Keeps, webhook_found-Keeps)

  pub webhook-Keeps :
      (payload signature : String) → Keeps (Of Q) (Webhook.handle_webhook env payload signature)
  unfolding Webhook.handle_webhook
  webhook-Keeps payload signature = search (keeps_rules, webhook_parsed-Keeps)

  pub refund-Keeps : (p : ℕ) → Keeps (Of Q) (Refund.refund env p)
  unfolding Refund.refund
  refund-Keeps p = search payment_base

  restore_refunded-Keeps :
      (s : FulfilmentSnapshot) (m : Quantities) → Keeps (Of Q) (Refund.restore_refunded env s m)
  unfolding Refund.restore_refunded
  restore_refunded-Keeps s m = search payment_base depth 7

  release_refunded-Keeps :
      (s : FulfilmentSnapshot) (o : ℕ) → Keeps (Of Q) (Refund.release_refunded env s o)
  unfolding Refund.release_refunded
  release_refunded-Keeps s o = search payment_base depth 7

  settle_body-Keeps : (p o : ℕ) → Keeps (Of Q) (Refund.settle_body env p o)
  unfolding Refund.settle_body Orders.fulfilment_snapshot Orders.mark_refunded
  settle_body-Keeps p o =
      search (payment_base, quantities-Keeps, restore_refunded-Keeps, release_refunded-Keeps) depth
        12

  pub settle_refund-Keeps : (p o : ℕ) → Keeps (Of Q) (Refund.settle_refund env p o)
  unfolding Refund.settle_refund
  settle_refund-Keeps p o = search (payment_base, settle_body-Keeps) depth 7
