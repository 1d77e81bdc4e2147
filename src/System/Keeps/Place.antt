-- ===== src/System/Keeps/Place.antt =====
-- `Place` and the two housekeeping jobs keep an invariant that satisfies the laws.
use go_api_project_template.Prelude.{ℕ, ◌≡◌, refl, String, List, [], ◌∷◌}
use go_api_project_template.Errs.{Result, ok, err}
use go_api_project_template.Money.{Money}
use go_api_project_template.Database.Keeps.{Keeps, Keeps-bind, keeps_rules}
use go_api_project_template.Order.Domain.{Status, Order, NewOrder}
use go_api_project_template.Order.Repository as Repository
use go_api_project_template.Order.Service as Orders
use go_api_project_template.Order.Place as Place
use go_api_project_template.Schema.{OrderRow, PaymentRow, Env, Keeps-clock}
use go_api_project_template.System.Laws.{Laws, Of}
use go_api_project_template.System.Keeps.Orders.{
  order_base, create-Keeps, create_items-Keeps, update_totals-Keeps, release_holds-Keeps,
}

draft-status :
    (user : ℕ) (inp : NewOrder) (key : String) (m : Money)
    → (Place.draft user inp key m).status ≡ Status.awaiting_payment
unfolding Place.draft
draft-status user inp key m = refl

module _ {Q : List OrderRow → List PaymentRow → Type 0} (laws : Laws Q) (env : Env) where
  ruleset place_rules = (
    order_base, create-Keeps, create_items-Keeps, update_totals-Keeps, release_holds-Keeps,
    draft-status,
  )

  locked-Keeps : (r : Result (Unit {0})) → Keeps (Of Q) (Place.locked env r)
  unfolding Place.locked
  locked-Keeps (ok u) = search keeps_rules
  locked-Keeps (err e) = search keeps_rules

  take_coupon-Keeps : (user : ℕ) (o : Order) → Keeps (Of Q) (Place.take_coupon env user o)
  unfolding Place.take_coupon
  take_coupon-Keeps user o = search place_rules

  place_body-Keeps :
      (user : ℕ) (inp : NewOrder) (key : String) → Keeps (Of Q) (Place.place_body env user inp key)
  unfolding Place.place_body
  place_body-Keeps user inp key = search (place_rules, locked-Keeps, take_coupon-Keeps) depth 14

  finish_free-Keeps : (o : Order) → Keeps (Of Q) (Place.finish_free env o)
  unfolding Place.finish_free Orders.finalize_free_order Orders.finalize_body
  finish_free-Keeps o = search place_rules depth 9

  place_new-Keeps :
      (user : ℕ) (inp : NewOrder) (key : String) → Keeps (Of Q) (Place.place_new env user inp key)
  unfolding Place.place_new
  place_new-Keeps user inp key = search (place_rules, place_body-Keeps, finish_free-Keeps) depth 7

  place_found-Keeps :
      (user : ℕ) (inp : NewOrder) (key : String) (r : Result Order)
      → Keeps (Of Q) (Place.place_found env user inp key r)
  unfolding Place.place_found
  place_found-Keeps user inp key (ok o) = search place_rules
  place_found-Keeps user inp key (err e) = search (keeps_rules, place_new-Keeps)

  pub place-Keeps :
      (user : ℕ) (inp : NewOrder) (key : String) → Keeps (Of Q) (Place.place env user inp key)
  unfolding Place.place Repository.get_by_key
  place-Keeps user inp key = search (keeps_rules, place_found-Keeps) depth 7

  expire_applied-Keeps :
      (o : Order) (r : Result (Unit {0})) → Keeps (Of Q) (Orders.expire_applied env o r)
  unfolding Orders.expire_applied
  expire_applied-Keeps o (ok u) = search place_rules
  expire_applied-Keeps o (err e) = search keeps_rules

  expire_one-Keeps : (o : Order) → Keeps (Of Q) (Orders.expire_one env o)
  unfolding Orders.expire_one Orders.expire_body
  expire_one-Keeps o = search (place_rules, expire_applied-Keeps) depth 7

  expire_each-Keeps : (os : List Order) → Keeps (Of Q) (Orders.expire_each env os)
  unfolding Orders.expire_each
  expire_each-Keeps [] = search keeps_rules
  expire_each-Keeps (o ∷ os) =
      Keeps-bind _ _ (search (keeps_rules, expire_one-Keeps)) (λ r. expire_each-Keeps os)

  pub expire_stale-Keeps : Keeps (Of Q) (Orders.expire_stale env)
  unfolding Orders.expire_stale Repository.get_expired_orders
  expire_stale-Keeps = search (keeps_rules, Keeps-clock, expire_each-Keeps) depth 7

  recover_each-Keeps : (os : List Order) → Keeps (Of Q) (Orders.recover_each env os)
  unfolding Orders.recover_each
  recover_each-Keeps [] = search keeps_rules
  recover_each-Keeps (o ∷ os) = Keeps-bind _ _ (search place_rules) (λ r. recover_each-Keeps os)

  pub recover_stale-Keeps : Keeps (Of Q) (Orders.recover_stale env)
  unfolding Orders.recover_stale Repository.get_stale_processing_orders
  recover_stale-Keeps = search (keeps_rules, Keeps-clock, recover_each-Keeps) depth 7
