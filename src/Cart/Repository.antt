-- ===== src/Cart/Repository.antt =====
-- internal/features/cart/adapter/postgres/repository.go: each method is one statement, but
-- `GetCart`, which reads the cart and then its items. Items stand in the order of their creation.
use go_api_project_template.Prelude.{
  ℕ, suc, ◌+◌, Bool, true, ◌&&◌, Option, none, some, List, [], ◌∷◌, ◌++◌, ltb, leb, ◌==◌, find,
  length, exists, if◌then◌else◌,
}
use go_api_project_template.Errs.{Err}
use go_api_project_template.Database.{Outcome, done, violation, sql, pure, raise, or_raise, ◌>>=◌}
use go_api_project_template.Inventory.Levels.{int_max}
use go_api_project_template.Cart.Domain.{Cart, Item}
use go_api_project_template.Schema.{CartRow, CartItemRow, Db, Env, Action}

abbrev owned : ℕ → CartRow → Bool
owned user c = c.user_id == user

abbrev pub of_cart : ℕ → CartItemRow → Bool
of_cart cart i = i.cart_id == cart

abbrev pub is_line : ℕ → ℕ → CartItemRow → Bool
is_line cart product i = i.cart_id == cart && i.product_id == product

abbrev pub create_if_missing : ℕ → Option CartRow → Db → Outcome Db ℕ
create_if_missing user (some c) d = done c.id d
create_if_missing user none d = done d.next_id (record d {
  carts = d.carts ++ (record { id = d.next_id; user_id = user }) ∷ [];
  next_id = suc d.next_id;
})

abbrev pub lines_of : ℕ → List CartItemRow → List CartItemRow
lines_of cart [] = []
lines_of cart (i ∷ is) = if of_cart cart i then i ∷ lines_of cart is else lines_of cart is

-- `INSERT ... ON CONFLICT DO UPDATE SET quantity = cart_items.quantity + EXCLUDED.quantity`.
unfoldable pub add_line : ℕ → ℕ → ℕ → List CartItemRow → List CartItemRow
add_line cart product n [] = (record { cart_id = cart; product_id = product; quantity = n }) ∷ []
add_line cart product n (i ∷ is) =
    if is_line cart product i
    then record i { quantity = i.quantity + n } ∷ is
    else i ∷ add_line cart product n is

abbrev drop_line : ℕ → ℕ → List CartItemRow → List CartItemRow
drop_line cart product [] = []
drop_line cart product (i ∷ is) =
    if is_line cart product i then drop_line cart product is else i ∷ drop_line cart product is

abbrev set_line : ℕ → ℕ → ℕ → List CartItemRow → List CartItemRow
set_line cart product n [] = []
set_line cart product n (i ∷ is) =
    if is_line cart product i
    then record i { quantity = n } ∷ set_line cart product n is
    else i ∷ set_line cart product n is

abbrev drop_cart : Option CartRow → List CartItemRow → List CartItemRow
drop_cart none is = is
drop_cart (some c) [] = []
drop_cart (some c) (i ∷ is) =
    if of_cart c.id i then drop_cart (some c) is else i ∷ drop_cart (some c) is

-- The INT column and CHECK (quantity > 0) of cart_items.
abbrev pub lines_ok : List CartItemRow → Bool
lines_ok [] = true
lines_ok (i ∷ is) = ltb 0 i.quantity && leb i.quantity int_max && lines_ok is

unfoldable pub write_lines : {A : Type 0} → A → List CartItemRow → Db → Outcome Db A
write_lines a is d =
    if lines_ok is then done a (record d { cart_items = is }) else violation Err.internal

abbrev scan_line : CartItemRow → Item
scan_line i = record { product_id = i.product_id; quantity = i.quantity; product = none }

abbrev scan_lines : List CartItemRow → List Item
scan_lines [] = []
scan_lines (i ∷ is) = scan_line i ∷ scan_lines is

module _ (env : Env) where
  unfoldable pub get_or_create : ℕ → Action ℕ
  get_or_create user =
      sql env.fault (λ (d : Db). create_if_missing user (find (owned user) d.carts) d)

  unfoldable pub count_and_has_item : ℕ → ℕ → Action (ℕ × Bool)
  count_and_has_item cart product = sql env.fault (λ (d : Db).
      done (length (lines_of cart d.cart_items), exists (is_line cart product) d.cart_items) d)

  unfoldable pub add_item : ℕ → ℕ → ℕ → Action (Unit {0})
  add_item cart product n =
      sql env.fault (λ (d : Db). write_lines tt (add_line cart product n d.cart_items) d)

  unfoldable pub remove_item : ℕ → ℕ → Action (Unit {0})
  remove_item cart product = do
    found ← sql env.fault (λ (d : Db).
        done (exists (is_line cart product) d.cart_items)
          (record d { cart_items = drop_line cart product d.cart_items }))
    if found then pure tt else raise Err.not_found

  unfoldable pub update_item_quantity : ℕ → ℕ → ℕ → Action (Unit {0})
  update_item_quantity cart product n = do
    found ← sql env.fault (λ (d : Db).
        write_lines (exists (is_line cart product) d.cart_items)
          (set_line cart product n d.cart_items) d)
    if found then pure tt else raise Err.not_found

  unfoldable pub read_items : ℕ → Option CartRow → Action Cart
  read_items user none = pure (record { id = none; user_id = user; items = [] })
  read_items user (some c) = do
    is ← sql env.fault (λ (d : Db). done (lines_of c.id d.cart_items) d)
    pure (record { id = some c.id; user_id = c.user_id; items = scan_lines is })

  unfoldable pub get_cart : ℕ → Action Cart
  get_cart user = do
    row ← sql env.fault (λ (d : Db). done (find (owned user) d.carts) d)
    read_items user row

  unfoldable pub clear : ℕ → Action (Unit {0})
  clear user = sql env.fault (λ (d : Db).
      done tt (record d { cart_items = drop_cart (find (owned user) d.carts) d.cart_items }))

  unfoldable pub get_cart_for_lock : ℕ → Action ℕ
  get_cart_for_lock user = do
    row ← sql env.fault (λ (d : Db). done (find (owned user) d.carts) d)
    c ← or_raise Err.not_found row
    pure c.id
