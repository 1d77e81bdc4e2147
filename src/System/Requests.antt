-- ===== src/System/Requests.antt =====
-- The entry points that write to the tables, as requests, and a run of the program: requests one
-- after the other, each under the faults, the clock and the gateway that the environment gives.
use go_api_project_template.Prelude.{ℕ, String, List, [], ◌∷◌}
use go_api_project_template.Prelude.Int.{ℤ}
use go_api_project_template.Database.{World, pure, ◌>>=◌}
use go_api_project_template.Database.Keeps.{Keeps, keeps_rules}
use go_api_project_template.Promotion.Domain.{Promotion}
use go_api_project_template.Promotion.Repository as Promotions
use go_api_project_template.Promotion.Service as Coupons
use go_api_project_template.Promotion.Service.{Changes}
use go_api_project_template.Cart.Service as Cart
use go_api_project_template.Order.Service as Orders
use go_api_project_template.Order.Service.{Requested}
use go_api_project_template.Payment.Refund as Refund
use go_api_project_template.Payment.Webhook as Webhook
use go_api_project_template.Checkout
use go_api_project_template.Checkout.{PlaceOrderInput}
use go_api_project_template.Shipping
use go_api_project_template.Schema.{OrderRow, PaymentRow, Db, Env, Action}
use go_api_project_template.System.Laws.{Laws, Of}
use go_api_project_template.System.Keeps.Coupons.{
  quote-Keeps, promotion_create-Keeps, promotion_update-Keeps, promotion_delete-Keeps,
}
use go_api_project_template.System.Keeps.Carts.{
  cart_add-Keeps, cart_remove-Keeps, cart_update-Keeps,
}
use go_api_project_template.System.Keeps.Orders.{change_status-Keeps}
use go_api_project_template.System.Keeps.Place.{expire_stale-Keeps, recover_stale-Keeps}
use go_api_project_template.System.Keeps.Charges.{webhook-Keeps, refund-Keeps, settle_refund-Keeps}
use go_api_project_template.System.Keeps.Checkout.{
  place_order-Keeps, retry_payment-Keeps, cancel_order-Keeps, ship-Keeps, deliver-Keeps,
  track-Keeps,
}

pub data Request : Type 0 where
  add_to_cart update_cart : ℕ → ℕ → ℕ → Request
  remove_from_cart : ℕ → ℕ → Request
  place_order : ℕ → PlaceOrderInput → Request
  retry_payment : ℕ → ℕ → String → Request
  cancel_order : ℕ → ℕ → Request
  change_status : ℕ → Requested → Request
  expire_stale recover_stale : Request
  webhook : String → String → Request
  refund : ℕ → Request
  settle_refund : ℕ → ℕ → Request
  ship : ℕ → String → String → Request
  deliver : ℕ → Request
  track : ℕ → String → String → Request
  quote : String → ℤ → Request
  create_promotion : Promotion → Request
  update_promotion : ℕ → Changes → Request
  delete_promotion : ℕ → Request

-- An action whose result the run does not look at.
abbrev drop : {A : Type 0} → Action A → Action (Unit {0})
drop m = m >>= λ _. pure tt

unfoldable pub handle : Env → Request → Action (Unit {0})
handle env (add_to_cart user product n) = Cart.add env user product n
handle env (update_cart user product n) = Cart.update_quantity env user product n
handle env (remove_from_cart user product) = Cart.remove env user product
handle env (place_order user inp) = drop (Checkout.place_order env user inp)
handle env (retry_payment user o method) = drop (Checkout.retry_payment env user o method)
handle env (cancel_order user o) = Checkout.cancel_order env user o
handle env (change_status o r) = Orders.change_status env o r
handle env expire_stale = Orders.expire_stale env
handle env recover_stale = Orders.recover_stale env
handle env (webhook payload signature) = Webhook.handle_webhook env payload signature
handle env (refund p) = Refund.refund env p
handle env (settle_refund p o) = Refund.settle_refund env p o
handle env (ship o carrier tracking) = drop (Shipping.create env o carrier tracking)
handle env (deliver id) = drop (Shipping.deliver env id)
handle env (track id carrier tracking) = drop (Shipping.update_tracking env id carrier tracking)
handle env (quote code amount) = drop (Coupons.quote env code amount)
handle env (create_promotion p) = drop (Coupons.create env p)
handle env (update_promotion id c) = drop (Coupons.update env id c)
handle env (delete_promotion id) = Promotions.delete env id

unfoldable pub serve : Env → List Request → World Db → World Db
serve env [] w = w
serve env (r ∷ rs) w = serve env rs (handle env r w).1

module _ {Q : List OrderRow → List PaymentRow → Type 0} (laws : Laws Q) (env : Env) where
  pub handle-Keeps : (r : Request) → Keeps (Of Q) (handle env r)
  unfolding handle
  handle-Keeps (add_to_cart user product n) = cart_add-Keeps Q env user product n
  handle-Keeps (update_cart user product n) = cart_update-Keeps Q env user product n
  handle-Keeps (remove_from_cart user product) = cart_remove-Keeps Q env user product
  handle-Keeps (place_order user inp) = search (keeps_rules, place_order-Keeps)
  handle-Keeps (retry_payment user o method) = search (keeps_rules, retry_payment-Keeps)
  handle-Keeps (cancel_order user o) = cancel_order-Keeps laws env user o
  handle-Keeps (change_status o r) = change_status-Keeps laws env o r
  handle-Keeps expire_stale = expire_stale-Keeps laws env
  handle-Keeps recover_stale = recover_stale-Keeps laws env
  handle-Keeps (webhook payload signature) = webhook-Keeps laws env payload signature
  handle-Keeps (refund p) = refund-Keeps laws env p
  handle-Keeps (settle_refund p o) = settle_refund-Keeps laws env p o
  handle-Keeps (ship o carrier tracking) = search (keeps_rules, ship-Keeps)
  handle-Keeps (deliver id) = search (keeps_rules, deliver-Keeps)
  handle-Keeps (track id carrier tracking) = search (keeps_rules, track-Keeps)
  handle-Keeps (quote code amount) = search (keeps_rules, quote-Keeps)
  handle-Keeps (create_promotion p) = search (keeps_rules, promotion_create-Keeps)
  handle-Keeps (update_promotion id c) = search (keeps_rules, promotion_update-Keeps)
  handle-Keeps (delete_promotion id) = promotion_delete-Keeps Q env id

  -- What the laws keep holds after any requests.
  pub serve-Of : (rs : List Request) (w : World Db) → Of Q w.db → Of Q (serve env rs w).db
  unfolding serve
  serve-Of [] w h = h
  serve-Of (r ∷ rs) w h = serve-Of rs (handle env r w).1 ((handle-Keeps r).at w h)
