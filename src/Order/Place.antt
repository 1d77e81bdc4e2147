-- ===== src/Order/Place.antt =====
-- internal/features/order/service.go, `Place`: one transaction that locks and reads the cart, makes
-- the order, reserves the stock, writes the items, takes the coupon and clears the cart.
use go_api_project_template.Prelude.{
  ℕ, String, Bool, true, false, not, List, [], ◌∷◌, str_eq, if◌then◌else◌,
}
use go_api_project_template.Prelude.Int.{ℤ, pos, ◌-ℤ◌, wrap64, ltb_ℤ, eqb_ℤ}
use go_api_project_template.Errs.{Err, Result, ok, err, is}
use go_api_project_template.Money
use go_api_project_template.Money.{Money}
use go_api_project_template.Database.{pure, raise, attempt, from_result, run_tx, ◌>>=◌, ◌>>◌}
use go_api_project_template.Inventory.Levels.{Quantities, set_quantity}
use go_api_project_template.Inventory.Repository.{reserve}
use go_api_project_template.Promotion.Service as Coupons
use go_api_project_template.Notification
use go_api_project_template.Cart.Domain.{SnapshotItem}
use go_api_project_template.Cart.Service as Cart
use go_api_project_template.Order.Domain.{Status, Order, Item, NewOrder}
use go_api_project_template.Order.Repository as Repository
use go_api_project_template.Order.Service.{
  Snapshot, text_of, has_coupon, placed_of, finalize_free_order,
}
use go_api_project_template.Schema.{Env, Action}

-- The sum so far and the quantities to reserve.
pub record Priced : Type 0 where
  pub subtotal : Money
  pub reservations : Quantities

abbrev pub mixed : Result Money → Result Money
mixed (ok m) = ok m
mixed (err e) = err Err.mixed_currencies

abbrev pub priced : Quantities → Result Money → Result Priced
priced m (ok sum) = ok (record { subtotal = sum; reservations = m })
priced m (err e) = err e

-- One round of the loop over the cart.
unfoldable pub price_item : Priced → SnapshotItem → Result Priced
price_item acc i =
    if not (str_eq i.status "published")
    then err Err.bad_request
    else priced (set_quantity i.product_id i.quantity acc.reservations)
        (mixed (Money.add acc.subtotal (Money.mul_qty i.price i.quantity)))

unfoldable pub price_from : Priced → List SnapshotItem → Result Priced
price_from acc [] = ok acc
price_from acc (i ∷ is) = elim (price_item acc i) [ ok acc' ↦ price_from acc' is | err e ↦ err e ]

-- The subtotal starts in the currency of the first item.
unfoldable pub price_cart : List SnapshotItem → Result Priced
price_cart [] = err Err.cart_empty
price_cart (i ∷ is) =
    price_from (record { subtotal = Money.new (pos 0) i.price.currency; reservations = [] })
      (i ∷ is)

unfoldable pub order_item : ℕ → SnapshotItem → Item
order_item order_id i = record {
  id = 0;
  order_id = order_id;
  product_id = i.product_id;
  product_name = i.name;
  price = i.price;
  quantity = i.quantity;
  subtotal = Money.mul_qty i.price i.quantity;
}

unfoldable pub order_items : ℕ → List SnapshotItem → List Item
order_items id [] = []
order_items id (i ∷ is) = order_item id i ∷ order_items id is

-- `max(a, 0)`.
abbrev pub at_least_zero : ℤ → ℤ
at_least_zero a = if ltb_ℤ a (pos 0) then pos 0 else a

-- The order that `Create` is given.
unfoldable pub draft : ℕ → NewOrder → String → Money → Order
draft user inp key subtotal = record {
  id = 0;
  user_id = user;
  idempotency_key = key;
  request_hash = "";
  status = Status.awaiting_payment;
  subtotal = subtotal;
  discount = Money.new (pos 0) subtotal.currency;
  total = subtotal;
  coupon_code = inp.coupon_code;
  shipping_address = inp.shipping_address;
  billing_address = inp.billing_address;
  notes = inp.notes;
  stock_deducted = false;
  stock_reversed = false;
  items = [];
}

-- The order after a discount.
unfoldable pub discounted : Order → ℤ → Order
discounted o discount = record o {
  discount = Money.new discount o.subtotal.currency;
  total = Money.new (at_least_zero (wrap64 (o.subtotal.amount -ℤ discount))) o.subtotal.currency;
}

abbrev lock_error : Err → Err
lock_error e = if is e Err.not_found then Err.cart_empty else e

module _ (env : Env) where
  unfoldable pub locked : Result (Unit {0}) → Action (Unit {0})
  locked (ok u) = pure tt
  locked (err e) = raise (lock_error e)

  unfoldable pub take_coupon : ℕ → Order → Action Order
  take_coupon user o =
      if has_coupon o.coupon_code
      then (do
        discount ← Coupons.reserve env (text_of o.coupon_code) user o.id o.subtotal.amount
        let o' = discounted o discount
        Repository.update_totals env o.id o'.discount.amount o'.total.amount
        pure o')
      else pure o

  -- The body of the transaction; the order comes back with its items.
  unfoldable pub place_body : ℕ → NewOrder → String → Action Order
  place_body user inp key = do
    lock ← attempt (Cart.lock env user)
    locked lock
    items ← Cart.snapshot env user
    p ← from_result (price_cart items)
    o ← Repository.create env (draft user inp key p.subtotal)
    reserve env p.reservations
    made ← Repository.create_items env (order_items o.id items)
    o' ← take_coupon user o
    Cart.clear env user
    pure (record o' { items = made })

  -- A zero total is finalized at once; a failure is logged.
  unfoldable pub finish_free : Order → Action (Unit {0})
  finish_free o =
      if eqb_ℤ o.total.amount (pos 0)
      then (do attempt (finalize_free_order env o); pure tt)
      else pure tt

  unfoldable pub place_new : ℕ → NewOrder → String → Action (Snapshot × Bool)
  place_new user inp key = do
    o ← run_tx env.fault (place_body user inp key)
    finish_free o
    attempt (Notification.create env user "Order Placed")
    pure (placed_of o, true)

  -- What the lookup by idempotency key gives: an order that is there is returned as it is.
  unfoldable pub place_found : ℕ → NewOrder → String → Result Order → Action (Snapshot × Bool)
  place_found user inp key (ok existing) = do
    items ← Repository.list_items env existing.id
    pure (placed_of existing, false)
  place_found user inp key (err e) = if is e Err.not_found then place_new user inp key else raise e

  unfoldable pub place : ℕ → NewOrder → String → Action (Snapshot × Bool)
  place user inp key = do
    existing ← attempt (Repository.get_by_key env user key)
    place_found user inp key existing
