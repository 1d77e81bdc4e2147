-- ===== src/System/Keeps/Payments.antt =====
-- The payment service keeps an invariant that satisfies the laws.
use go_api_project_template.Prelude.{ℕ, ◌+◌, ◌≡◌, refl, String, List, Option}
use go_api_project_template.Errs.{Err}
use go_api_project_template.Database.{sql}
use go_api_project_template.Database.Keeps.{
  Keeps, Keeps-sql, Keeps-Sound, Keeps-bind, Keeps-or_raise, sound_rules, keeps_rules,
}
use go_api_project_template.Order.Service as Orders
use go_api_project_template.Order.Service.{FulfilmentSnapshot}
use go_api_project_template.Payment.Domain.{Payment, PaymentStatus}
use go_api_project_template.Payment.Gateway.{GatewayChargeResponse}
use go_api_project_template.Payment.Repository as Repository
use go_api_project_template.Payment.Finalize.{payable}
use go_api_project_template.Payment.Charge as Charge
use go_api_project_template.Payment.Charge.{ChargeRequest}
use go_api_project_template.Schema.{OrderRow, PaymentRow, Env, Keeps-clock}
use go_api_project_template.System.Laws.{
  Laws, Of, StatusChange, review_late, review_compensating, cancel_failed, refund_settled,
}
use go_api_project_template.System.Keeps.Orders.{order_base}

pub new_payment-status :
    (req : ChargeRequest) → (Charge.new_payment req).status ≡ PaymentStatus.pending
unfolding Charge.new_payment
new_payment-status req = refl

pub ruleset change_rules = (review_late, review_compensating, cancel_failed, refund_settled)

module _ {Q : List OrderRow → List PaymentRow → Type 0} (laws : Laws Q) (env : Env) where
  pub update_status-Keeps :
      {to : PaymentStatus} {from : List PaymentStatus}
      → StatusChange to from
      → (id : ℕ) → Keeps (Of Q) (Repository.update_status env id to from)
  unfolding Repository.update_status Repository.write_status
  update_status-Keeps c id =
      Keeps-bind _ _
        (Keeps-Sound env.fault _
          (λ d h. search (sound_rules, laws.change c id d.orders d.payments h)))
        (λ found. search keeps_rules)

  pub mark_paid-Keeps : (id : ℕ) → Keeps (Of Q) (Repository.mark_paid env id payable)
  unfolding Repository.mark_paid Repository.write_paid
  mark_paid-Keeps id = Keeps-bind _ _ (Keeps-clock _ env) (λ at.
      Keeps-bind _ _ (Keeps-sql env.fault _ (λ d h. laws.paid at id d.orders d.payments h))
        (λ found. search keeps_rules))

  insert_payment-Keeps :
      (at : ℕ) (p : Payment)
      → p.status ≡ PaymentStatus.pending
      → Keeps (Of Q) (sql env.fault (Repository.insert_payment at p))
  unfolding Repository.insert_payment
  insert_payment-Keeps at p e =
      Keeps-Sound env.fault _
        (λ d h. search (sound_rules, laws.open_payment d.next_id at p d.orders d.payments e h))

  pub create-Keeps :
      (p : Payment) → p.status ≡ PaymentStatus.pending → Keeps (Of Q) (Repository.create env p)
  unfolding Repository.create
  create-Keeps p e = search (keeps_rules, Keeps-clock, insert_payment-Keeps)

  pub update_gateway-Keeps :
      (id : ℕ) (txn : String) (r : GatewayChargeResponse)
      → Keeps (Of Q) (Repository.update_gateway env id txn r)
  unfolding Repository.update_gateway Repository.write_row
  update_gateway-Keeps id txn r =
      Keeps-sql env.fault _ (λ d h. laws.details id _ (λ s. refl) (λ s. refl) d.orders d.payments h)

  pub update_url-Keeps :
      (id : ℕ) (url : String) → Keeps (Of Q) (Repository.update_payment_url env id url)
  unfolding Repository.update_payment_url Repository.write_row
  update_url-Keeps id url =
      Keeps-sql env.fault _ (λ d h. laws.details id _ (λ s. refl) (λ s. refl) d.orders d.payments h)

  pub clear_url-Keeps : (id : ℕ) → Keeps (Of Q) (Repository.clear_payment_url env id)
  unfolding Repository.clear_payment_url Repository.write_row
  clear_url-Keeps id =
      Keeps-sql env.fault _ (λ d h. laws.details id _ (λ s. refl) (λ s. refl) d.orders d.payments h)

  pub enqueue-Keeps : (p o : ℕ) → Keeps (Of Q) (Repository.enqueue_refund env p o)
  unfolding Repository.enqueue_refund
  enqueue-Keeps p o = Keeps-sql env.fault _ (λ d h. h)

  pub get_by_id-Keeps : (id : ℕ) → Keeps (Of Q) (Repository.get_by_id env id)
  unfolding Repository.get_by_id
  get_by_id-Keeps id = search keeps_rules

  pub get_active-Keeps : (id : ℕ) → Keeps (Of Q) (Repository.get_active_by_order_id env id)
  unfolding Repository.get_active_by_order_id
  get_active-Keeps id = search keeps_rules

  pub call_gateway-Keeps :
      {A : Type 0} (answer : ℕ → Option A) → Keeps (Of Q) (Charge.call_gateway answer)
  unfolding Charge.call_gateway
  call_gateway-Keeps answer = record {
    at = λ w h.
        (Keeps-or_raise {P = Of Q} Err.internal (answer w.tick)).at (record w { tick = w.tick + 1 })
          h;
  }

  pub snapshot-Keeps : (id : ℕ) → Keeps (Of Q) (Orders.snapshot env id)
  unfolding Orders.snapshot Orders.fulfilment_snapshot
  snapshot-Keeps id = search order_base depth 7

  pub ruleset payment_base = (
    order_base, change_rules, update_status-Keeps, mark_paid-Keeps, create-Keeps,
    update_gateway-Keeps, update_url-Keeps, clear_url-Keeps, enqueue-Keeps, get_by_id-Keeps,
    get_active-Keeps, call_gateway-Keeps, snapshot-Keeps, new_payment-status,
  )
