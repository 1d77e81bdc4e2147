-- ===== src/System/Keeps/Orders.antt =====
-- The order service keeps an invariant that satisfies the laws.
use go_api_project_template.Prelude.{ℕ, ◌≡◌, List, [], ◌∷◌, none, some}
use go_api_project_template.Prelude.Int.{ℤ}
use go_api_project_template.Errs.{Result, ok, err, is}
use go_api_project_template.Database.{sql}
use go_api_project_template.Database.Keeps.{
  Keeps, Sound, Keeps-sql, Keeps-Sound, Keeps-bind, Keeps-run_tx, sound_rules, keeps_rules,
}
use go_api_project_template.Order.Domain.{
  Status, Order, Item, Transition, Known, known_rules, NewOrder,
}
use go_api_project_template.Order.Repository as Repository
use go_api_project_template.Order.Service as Orders
use go_api_project_template.Order.Service.{Requested, known_status, other_text, direct_transition}
use go_api_project_template.Schema.{OrderRow, PaymentRow, Env, Keeps-clock}
use go_api_project_template.System.Laws.{Laws, Of}
use go_api_project_template.System.Keeps.Stock.{stock_rules}
use go_api_project_template.System.Keeps.Coupons.{coupon_rules}
use go_api_project_template.System.Keeps.Carts.{cart_rules}

module _ {Q : List OrderRow → List PaymentRow → Type 0} (laws : Laws Q) (env : Env) where
  pub apply-Keeps : {t : Transition} → Known t → (id : ℕ) → Keeps (Of Q) (Orders.apply env id t)
  unfolding Orders.apply Repository.apply
  apply-Keeps {t} k id = Keeps-bind _ _ (Keeps-clock _ env) (λ at.
      Keeps-bind _ _ (Keeps-sql env.fault _ (λ d h. laws.apply k at id d.orders d.payments h))
        (λ n. search keeps_rules))

  insert_order-Keeps :
      (at : ℕ) (o : Order)
      → o.status ≡ Status.awaiting_payment
      → Keeps (Of Q) (sql env.fault (Repository.insert_order at o))
  unfolding Repository.insert_order
  insert_order-Keeps at o e =
      Keeps-Sound env.fault _
        (λ d h. search (sound_rules, laws.insert d.next_id at o d.orders d.payments e h))

  insert_items-Keeps : (is : List Item) → Keeps (Of Q) (sql env.fault (Repository.insert_items is))
  unfolding Repository.insert_items
  insert_items-Keeps is = Keeps-Sound env.fault _ (λ d h. search sound_rules)

  write_totals-Keeps :
      (at id : ℕ) (discount total : ℤ)
      → Keeps (Of Q) (sql env.fault (Repository.write_totals at id discount total))
  unfolding Repository.write_totals
  write_totals-Keeps at id discount total =
      Keeps-Sound env.fault _
        (λ d h. search (sound_rules, laws.totals at id discount total d.orders d.payments h))

  pub create-Keeps :
      (o : Order) → o.status ≡ Status.awaiting_payment → Keeps (Of Q) (Repository.create env o)
  unfolding Repository.create
  create-Keeps o e = search (keeps_rules, Keeps-clock, insert_order-Keeps)

  pub create_items-Keeps : (is : List Item) → Keeps (Of Q) (Repository.create_items env is)
  unfolding Repository.create_items
  create_items-Keeps [] = search keeps_rules
  create_items-Keeps (i ∷ is) = insert_items-Keeps (i ∷ is)

  pub update_totals-Keeps :
      (id : ℕ) (discount total : ℤ) → Keeps (Of Q) (Repository.update_totals env id discount total)
  unfolding Repository.update_totals
  update_totals-Keeps id discount total = search (keeps_rules, Keeps-clock, write_totals-Keeps)

  pub get_by_id-Keeps : (id : ℕ) → Keeps (Of Q) (Repository.get_by_id env id)
  unfolding Repository.get_by_id
  get_by_id-Keeps id = search keeps_rules

  pub list_items-Keeps : (id : ℕ) → Keeps (Of Q) (Repository.list_items env id)
  unfolding Repository.list_items
  list_items-Keeps id = search keeps_rules

  pub ruleset order_base = (
    keeps_rules, known_rules, stock_rules, coupon_rules, cart_rules, apply-Keeps, get_by_id-Keeps,
    list_items-Keeps,
  )

  restore_items-Keeps : (o : Order) (is : List Item) → Keeps (Of Q) (Orders.restore_items env o is)
  unfolding Orders.restore_items
  restore_items-Keeps o is = search order_base

  release_coupon-Keeps : (o : Order) → Keeps (Of Q) (Orders.release_coupon env o)
  unfolding Orders.release_coupon
  release_coupon-Keeps o = search order_base

  pub release_holds-Keeps : (o : Order) → Keeps (Of Q) (Orders.release_order_holds env o)
  unfolding Orders.release_order_holds
  release_holds-Keeps o = search (order_base, restore_items-Keeps, release_coupon-Keeps)

  cancel_error-Keeps : (r : Result (Unit {0})) → Keeps (Of Q) (Orders.cancel_error env r)
  unfolding Orders.cancel_error
  cancel_error-Keeps (ok u) = search order_base
  cancel_error-Keeps (err e) = search order_base

  cancel-Keeps : (o : Order) → Keeps (Of Q) (Orders.cancel_with_reversal env o)
  unfolding Orders.cancel_with_reversal Orders.cancel_body
  cancel-Keeps o = search (order_base, cancel_error-Keeps, release_holds-Keeps) depth 7

  pub cancel_by_user-Keeps : (user id : ℕ) → Keeps (Of Q) (Orders.cancel_by_user env user id)
  unfolding Orders.cancel_by_user
  cancel_by_user-Keeps user id = search (order_base, cancel-Keeps)

  pub cancel_unpaid-Keeps : (id : ℕ) → Keeps (Of Q) (Orders.cancel_unpaid env id)
  unfolding Orders.cancel_unpaid
  cancel_unpaid-Keeps id = search (order_base, cancel-Keeps)

  change_allowed-Keeps :
      {t : Transition} → Known t → (id : ℕ) → Keeps (Of Q) (Orders.change_allowed env id (some t))
  unfolding Orders.change_allowed
  change_allowed-Keeps k id = search order_base

  change_refused-Keeps : (id : ℕ) → Keeps (Of Q) (Orders.change_allowed env id none)
  unfolding Orders.change_allowed
  change_refused-Keeps id = search order_base

  pub change_status-Keeps : (id : ℕ) (r : Requested) → Keeps (Of Q) (Orders.change_status env id r)
  unfolding Orders.change_status direct_transition
  change_status-Keeps id (known_status Status.awaiting_payment) =
      search (known_rules, change_allowed-Keeps)
  change_status-Keeps id (known_status Status.processing) =
      search (known_rules, change_allowed-Keeps)
  change_status-Keeps id (known_status Status.shipped) = search (known_rules, change_allowed-Keeps)
  change_status-Keeps id (known_status Status.delivered) =
      search (known_rules, change_allowed-Keeps)
  change_status-Keeps id (known_status _) = change_refused-Keeps id
  change_status-Keeps id (other_text _) = change_refused-Keeps id
