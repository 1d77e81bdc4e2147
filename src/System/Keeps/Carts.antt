-- ===== src/System/Keeps/Carts.antt =====
-- Carts and shipments write neither orders nor payments, but for the statuses that a shipment
-- moves.
use go_api_project_template.Prelude.{ℕ, List, [], ◌∷◌, Option, none, some}
use go_api_project_template.Errs.{is}
use go_api_project_template.Database.Keeps.{
  Keeps, Sound, Keeps-sql, Keeps-Sound, Keeps-bind, sound_rules, keeps_rules,
}
use go_api_project_template.Cart.Domain.{Cart, Item}
use go_api_project_template.Cart.Repository as Carts
use go_api_project_template.Cart.Service as Cart
use go_api_project_template.Schema.{OrderRow, PaymentRow, CartRow, CartItemRow, Db, Env}
use go_api_project_template.System.Laws.{Of}
use go_api_project_template.System.Keeps.Stock.{stock_rules}

module _ (Q : List OrderRow → List PaymentRow → Type 0) (env : Env) where
  create_if_missing-Sound :
      (user : ℕ) (c : Option CartRow) (d : Db)
      → Of Q d
      → Sound (Of Q) (Carts.create_if_missing user c d)
  create_if_missing-Sound user none d h = search sound_rules
  create_if_missing-Sound user (some c) d h = search sound_rules

  get_or_create-Keeps : (user : ℕ) → Keeps (Of Q) (Carts.get_or_create env user)
  unfolding Carts.get_or_create
  get_or_create-Keeps user = Keeps-Sound env.fault _ (λ d h. create_if_missing-Sound user _ d h)

  write_lines-Sound :
      {A : Type 0} (a : A) (is : List CartItemRow) (d : Db)
      → Of Q d
      → Sound (Of Q) (Carts.write_lines a is d)
  unfolding Carts.write_lines
  write_lines-Sound a is d h = search sound_rules

  add_item-Keeps : (cart product n : ℕ) → Keeps (Of Q) (Carts.add_item env cart product n)
  unfolding Carts.add_item
  add_item-Keeps cart product n = Keeps-Sound env.fault _ (λ d h. write_lines-Sound tt _ d h)

  update_item-Keeps :
      (cart product n : ℕ) → Keeps (Of Q) (Carts.update_item_quantity env cart product n)
  unfolding Carts.update_item_quantity
  update_item-Keeps cart product n =
      Keeps-bind _ _ (Keeps-Sound env.fault _ (λ d h. write_lines-Sound _ _ d h))
        (λ found. search keeps_rules)

  remove_item-Keeps : (cart product : ℕ) → Keeps (Of Q) (Carts.remove_item env cart product)
  unfolding Carts.remove_item
  remove_item-Keeps cart product =
      Keeps-bind _ _ (Keeps-sql env.fault _ (λ d h. h)) (λ found. search keeps_rules)

  pub cart_clear-Keeps : (user : ℕ) → Keeps (Of Q) (Cart.clear env user)
  unfolding Cart.clear Carts.clear
  cart_clear-Keeps user = Keeps-sql env.fault _ (λ d h. h)

  read_items-Keeps : (user : ℕ) (c : Option CartRow) → Keeps (Of Q) (Carts.read_items env user c)
  unfolding Carts.read_items
  read_items-Keeps user none = search keeps_rules
  read_items-Keeps user (some c) = search keeps_rules

  fill-Keeps : (c : Cart) (is : List Item) → Keeps (Of Q) (Cart.fill env c is)
  unfolding Cart.fill
  fill-Keeps c [] = search keeps_rules
  fill-Keeps c (i ∷ is) = search (keeps_rules, stock_rules)

  pub cart_get-Keeps : (user : ℕ) → Keeps (Of Q) (Cart.get env user)
  unfolding Cart.get Carts.get_cart
  cart_get-Keeps user = search (keeps_rules, read_items-Keeps, fill-Keeps)

  pub cart_snapshot-Keeps : (user : ℕ) → Keeps (Of Q) (Cart.snapshot env user)
  unfolding Cart.snapshot
  cart_snapshot-Keeps user = search (keeps_rules, cart_get-Keeps)

  pub cart_lock-Keeps : (user : ℕ) → Keeps (Of Q) (Cart.lock env user)
  unfolding Cart.lock Carts.get_cart_for_lock
  cart_lock-Keeps user = search keeps_rules

  pub cart_add-Keeps : (user product n : ℕ) → Keeps (Of Q) (Cart.add env user product n)
  unfolding Cart.add Cart.add_body Carts.count_and_has_item
  cart_add-Keeps user product n =
      search (keeps_rules, stock_rules, get_or_create-Keeps, add_item-Keeps) depth 9

  pub cart_remove-Keeps : (user product : ℕ) → Keeps (Of Q) (Cart.remove env user product)
  unfolding Cart.remove
  cart_remove-Keeps user product = search (keeps_rules, get_or_create-Keeps, remove_item-Keeps)

  pub cart_update-Keeps :
      (user product n : ℕ) → Keeps (Of Q) (Cart.update_quantity env user product n)
  unfolding Cart.update_quantity Cart.update_body
  cart_update-Keeps user product n =
      search (keeps_rules, stock_rules, get_or_create-Keeps, update_item-Keeps) depth 9

pub ruleset cart_rules = (cart_clear-Keeps, cart_snapshot-Keeps, cart_lock-Keeps)
