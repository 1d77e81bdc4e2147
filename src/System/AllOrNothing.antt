-- ===== src/System/AllOrNothing.antt =====
-- Handlers that change no table when they report an error.
use go_api_project_template.Prelude.{
  ℕ, ◌+◌, String, List, [], ◌∷◌, ◌≡◌, Bool, true, false, Option, arith,
}
use go_api_project_template.Errs.{Err, Result, ok, err, is_ok}
use go_api_project_template.Database.{World, pure, ◌>>=◌}
use go_api_project_template.Database.Returns.{Returns, returns_rules}
use go_api_project_template.Database.Clean.{
  ReadOnly, Clean, read_rules, Clean-ReadOnly, Clean-if, Clean-run_tx, Clean-after-read,
  Clean-before-Returns, ReadOnly-raise, ReadOnly-or_raise, Clean-sql, Clean-Returns,
}
use go_api_project_template.Inventory.Repository.{get_levels}
use go_api_project_template.Inventory.Service.{get_availability}
use go_api_project_template.Product.{get_info}
use go_api_project_template.Cart.Service as Cart
use go_api_project_template.Order.Domain.{Order, NewOrder}
use go_api_project_template.Order.Repository as OrderRows
use go_api_project_template.Order.Service as Orders
use go_api_project_template.Order.Service.{Snapshot}
use go_api_project_template.Order.Place.{place, place_found, place_new, finish_free}
use go_api_project_template.Payment.Charge.{call_gateway}
use go_api_project_template.Payment.Repository as Payments
use go_api_project_template.Payment.Refund.{refund, settle_refund}
use go_api_project_template.System.Requests.{Request, handle}
use go_api_project_template.Checkout.{PlaceOrderInput, place_order, pay_placed, cancel_order}
use go_api_project_template.Schema.{Db, Env, Action}

pub ruleset clean_rules = (Clean-if, Clean-run_tx, Clean-after-read, Clean-sql, Clean-ReadOnly)

module _ (env : Env) where
  get_by_key-ReadOnly : (user : ℕ) (key : String) → ReadOnly (OrderRows.get_by_key env user key)
  unfolding OrderRows.get_by_key
  get_by_key-ReadOnly user key = search read_rules

  order-ReadOnly : (id : ℕ) → ReadOnly (OrderRows.get_by_id env id)
  unfolding OrderRows.get_by_id
  order-ReadOnly id = search read_rules

  payment-ReadOnly : (id : ℕ) → ReadOnly (Payments.get_by_id env id)
  unfolding Payments.get_by_id
  payment-ReadOnly id = search read_rules

  list_items-ReadOnly : (id : ℕ) → ReadOnly (OrderRows.list_items env id)
  unfolding OrderRows.list_items
  list_items-ReadOnly id = search read_rules

  get_levels-ReadOnly : (ids : List ℕ) → ReadOnly (get_levels env ids)
  unfolding get_levels
  get_levels-ReadOnly [] = search read_rules
  get_levels-ReadOnly (i ∷ ids) = search read_rules

  get_info-ReadOnly : (id : ℕ) → ReadOnly (get_info env id)
  unfolding get_info get_availability
  get_info-ReadOnly id = search (read_rules, get_levels-ReadOnly) depth 12

  call_gateway-ReadOnly : {A : Type 0} (answer : ℕ → Option A) → ReadOnly (call_gateway answer)
  unfolding call_gateway
  call_gateway-ReadOnly answer = record {
    same_db = λ w.
        (ReadOnly-or_raise Err.internal (answer w.tick)).same_db (record w { tick = w.tick + 1 });
    same_tx = λ w.
        (ReadOnly-or_raise Err.internal (answer w.tick)).same_tx (record w { tick = w.tick + 1 });
  }

  finish_free-Returns : (o : Order) → Returns (finish_free env o)
  unfolding finish_free
  finish_free-Returns o = search returns_rules

  pay_placed-Returns : (s : Snapshot) (b : Bool) (m : String) → Returns (pay_placed env s b m)
  unfolding pay_placed
  pay_placed-Returns s b m = search returns_rules

  place_new-Clean : (user : ℕ) (inp : NewOrder) (key : String) → Clean (place_new env user inp key)
  unfolding place_new
  place_new-Clean user inp key =
      Clean-before-Returns _ _ (Clean-run_tx _ _) (λ o. search (returns_rules, finish_free-Returns))

  place_found-Clean :
      (user : ℕ) (inp : NewOrder) (key : String) (r : Result Order)
      → Clean (place_found env user inp key r)
  unfolding place_found
  place_found-Clean user inp key (ok o) =
      Clean-ReadOnly _ (search (read_rules, list_items-ReadOnly))
  place_found-Clean user inp key (err e) =
      Clean-if _ _ _ (place_new-Clean user inp key) (Clean-ReadOnly _ (ReadOnly-raise e))

  place-Clean : (user : ℕ) (inp : NewOrder) (key : String) → Clean (place env user inp key)
  unfolding place
  place-Clean user inp key =
      Clean-after-read _ _ (search (read_rules, get_by_key-ReadOnly))
        (place_found-Clean user inp key)

  place_order-Clean : (user : ℕ) (inp : PlaceOrderInput) → Clean (place_order env user inp)
  unfolding place_order
  place_order-Clean user inp =
      Clean-before-Returns _ _ (place-Clean user inp.order inp.idempotency_key)
        (λ placed. search (returns_rules, pay_placed-Returns))

  cancel_by_user-Clean : (user id : ℕ) → Clean (Orders.cancel_by_user env user id)
  unfolding Orders.cancel_by_user Orders.cancel_with_reversal
  cancel_by_user-Clean user id = search (clean_rules, read_rules, order-ReadOnly) depth 12

  cancel_order-Clean : (user id : ℕ) → Clean (cancel_order env user id)
  unfolding cancel_order
  cancel_order-Clean user id =
      Clean-before-Returns _ _ (cancel_by_user-Clean user id) (λ u. search returns_rules)

  settle_refund-Clean : (payment order : ℕ) → Clean (settle_refund env payment order)
  unfolding settle_refund
  settle_refund-Clean payment order =
      search (clean_rules, read_rules, payment-ReadOnly, call_gateway-ReadOnly) depth 12

  cart_add-Clean : (user product n : ℕ) → Clean (Cart.add env user product n)
  unfolding Cart.add
  cart_add-Clean user product n = search (clean_rules, read_rules, get_info-ReadOnly) depth 12

  refund-Clean : (payment : ℕ) → Clean (refund env payment)
  unfolding refund Payments.enqueue_refund
  refund-Clean payment = search (clean_rules, read_rules, payment-ReadOnly) depth 12

-- The requests whose handlers make all their changes in one transaction or one statement.
abbrev pub all_or_nothing : Request → Bool
all_or_nothing (Request.add_to_cart user product n) = true
all_or_nothing (Request.place_order user inp) = true
all_or_nothing (Request.cancel_order user o) = true
all_or_nothing (Request.refund p) = true
all_or_nothing (Request.settle_refund p o) = true
all_or_nothing r = false

drop-Clean : {A : Type 0} (m : Action A) → Clean m → Clean (m >>= λ a. pure (tt {0}))
drop-Clean m c = Clean-before-Returns _ _ c (λ a. search returns_rules)

handle-Clean : (env : Env) (r : Request) → all_or_nothing r ≡ true → Clean (handle env r)
unfolding handle
handle-Clean env (Request.add_to_cart user product n) h = cart_add-Clean env user product n
handle-Clean env (Request.place_order user inp) h = drop-Clean _ (place_order-Clean env user inp)
handle-Clean env (Request.cancel_order user o) h = cancel_order-Clean env user o
handle-Clean env (Request.refund p) h = refund-Clean env p
handle-Clean env (Request.settle_refund p o) h = settle_refund-Clean env p o
handle-Clean env r h = ground arith

-- A request to add to a cart, to place or cancel an order, or to ask for or settle a refund, that
-- starts outside a transaction and reports an error, has changed no table, whatever statements fail.
pub handle-all_or_nothing :
    (env : Env) (r : Request) (w : World Db)
    → all_or_nothing r ≡ true
    → w.in_tx ≡ false
    → is_ok (handle env r w).0 ≡ false
    → (handle env r w).1.db ≡ w.db
handle-all_or_nothing env r w h out failed = (handle-Clean env r h).at w out failed
