-- ===== src/System/Keeps/Checkout.antt =====
-- Checkout and shipping keep an invariant that satisfies the laws.
use go_api_project_template.Prelude.{ℕ, String, List, Bool}
use go_api_project_template.Errs.{Result, ok, err}
use go_api_project_template.Database.{sql}
use go_api_project_template.Database.Keeps.{
  Keeps, Keeps-sql, Keeps-Sound, Keeps-bind, sound_rules, keeps_rules,
}
use go_api_project_template.Order.Service as Orders
use go_api_project_template.Order.Service.{Snapshot}
use go_api_project_template.Payment.Charge.{ChargeResult}
use go_api_project_template.Checkout
use go_api_project_template.Checkout.{PlaceOrderInput}
use go_api_project_template.Shipping
use go_api_project_template.Schema.{OrderRow, PaymentRow, Shipment, Env, Keeps-clock}
use go_api_project_template.System.Laws.{Laws, Of}
use go_api_project_template.System.Keeps.Orders.{cancel_by_user-Keeps}
use go_api_project_template.System.Keeps.Place.{place-Keeps}
use go_api_project_template.System.Keeps.Payments.{payment_base}
use go_api_project_template.System.Keeps.Charges.{charge-Keeps, cancel_pending-Keeps}

module _ {Q : List OrderRow → List PaymentRow → Type 0} (laws : Laws Q) (env : Env) where
  pay_placed-Keeps :
      (o : Snapshot) (created : Bool) (method : String)
      → Keeps (Of Q) (Checkout.pay_placed env o created method)
  unfolding Checkout.pay_placed
  pay_placed-Keeps o created method = search (keeps_rules, charge-Keeps)

  pub place_order-Keeps :
      (user : ℕ) (inp : PlaceOrderInput) → Keeps (Of Q) (Checkout.place_order env user inp)
  unfolding Checkout.place_order
  place_order-Keeps user inp = search (keeps_rules, place-Keeps, pay_placed-Keeps)

  claimed-Keeps : (r : Result (Unit {0})) → Keeps (Of Q) (Checkout.claimed env r)
  unfolding Checkout.claimed
  claimed-Keeps (ok u) = search keeps_rules
  claimed-Keeps (err e) = search keeps_rules

  charged_or_release-Keeps :
      (o : ℕ) (r : Result ChargeResult) → Keeps (Of Q) (Checkout.charged_or_release env o r)
  unfolding Checkout.charged_or_release Orders.mark_awaiting_payment
  charged_or_release-Keeps o (ok c) = search keeps_rules
  charged_or_release-Keeps o (err e) = search payment_base

  pub retry_payment-Keeps :
      (user o : ℕ) (method : String) → Keeps (Of Q) (Checkout.retry_payment env user o method)
  unfolding Checkout.retry_payment Orders.begin_payment_attempt
  retry_payment-Keeps user o method =
      search (payment_base, charge-Keeps, claimed-Keeps, charged_or_release-Keeps) depth 14

  pub cancel_order-Keeps : (user o : ℕ) → Keeps (Of Q) (Checkout.cancel_order env user o)
  unfolding Checkout.cancel_order
  cancel_order-Keeps user o =
      search (keeps_rules, cancel_by_user-Keeps, cancel_pending-Keeps) depth 7

  insert_shipment-Keeps :
      (at o : ℕ) (carrier tracking : String)
      → Keeps (Of Q) (sql env.fault (Shipping.insert_shipment at o carrier tracking))
  unfolding Shipping.insert_shipment
  insert_shipment-Keeps at o carrier tracking = Keeps-Sound env.fault _ (λ d h. search sound_rules)

  shipment-Keeps : (id : ℕ) → Keeps (Of Q) (Shipping.get_by_id env id)
  unfolding Shipping.get_by_id
  shipment-Keeps id = search keeps_rules

  delivered-Keeps : (id : ℕ) → Keeps (Of Q) (Shipping.mark_delivered env id)
  unfolding Shipping.mark_delivered
  delivered-Keeps id =
      Keeps-bind _ _ (Keeps-clock _ env)
        (λ at. Keeps-bind _ _ (Keeps-sql env.fault _ (λ d h. h)) (λ row. search keeps_rules))

  update_row-Keeps : (s : Shipment) → Keeps (Of Q) (Shipping.update_row env s)
  unfolding Shipping.update_row
  update_row-Keeps s =
      Keeps-bind _ _ (Keeps-sql env.fault _ (λ d h. h)) (λ found. search keeps_rules)

  pub ship-Keeps :
      (o : ℕ) (carrier tracking : String) → Keeps (Of Q) (Shipping.create env o carrier tracking)
  unfolding Shipping.create Shipping.create_body Shipping.create_row Orders.mark_shipped
  ship-Keeps o carrier tracking = search (payment_base, Keeps-clock, insert_shipment-Keeps) depth 14

  pub deliver-Keeps : (id : ℕ) → Keeps (Of Q) (Shipping.deliver env id)
  unfolding Shipping.deliver Shipping.deliver_body Orders.mark_delivered
  deliver-Keeps id = search (payment_base, shipment-Keeps, delivered-Keeps) depth 9

  pub track-Keeps :
      (id : ℕ) (carrier tracking : String)
      → Keeps (Of Q) (Shipping.update_tracking env id carrier tracking)
  unfolding Shipping.update_tracking
  track-Keeps id carrier tracking = search (keeps_rules, shipment-Keeps, update_row-Keeps)
