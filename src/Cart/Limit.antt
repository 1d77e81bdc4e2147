-- ===== src/Cart/Limit.antt =====
-- The limit on the lines of a cart, which `Add` of internal/features/cart/service.go checks.
use go_api_project_template.Prelude.{
  ℕ, ◌+◌, ◌≤◌, ◌≡◌, inl, inr, Bool, false, not, ◌&&◌, ◌||◌, Option, none, some, List, [], ◌∷◌, leb,
  ◌==◌, length, exists, if◌then◌else◌, Bool-cases, arith, ==→eq,
}
use go_api_project_template.Errs.{Err}
use go_api_project_template.Database.{World, raise, sql, ◌>>=◌}
use go_api_project_template.Cart.Repository.{
  lines_of, of_cart, is_line, add_line, write_lines, lines_ok,
}
use go_api_project_template.Database.Keeps.{
  Holds, sql-Holds, Keeps, keeps_rules, Keeps-bind, Keeps-Sound, Sound,
}
use go_api_project_template.Cart.Repository as Carts
use go_api_project_template.Cart.Service as Cart
use go_api_project_template.Inventory.Repository.{get_levels}
use go_api_project_template.Inventory.Service.{get_availability}
use go_api_project_template.Product.{get_info}
use go_api_project_template.Schema.{CartRow, CartItemRow, Db, Env, Action}

-- An upsert adds a line exactly where the cart has none for the product.
length-add_line :
    (cart product n : ℕ) (is : List CartItemRow)
    → length (lines_of cart (add_line cart product n is))
      ≡ (if exists (is_line cart product) is then 0 else 1) + length (lines_of cart is)
unfolding add_line
length-add_line cart product n [] = ground arith
length-add_line cart product n (i ∷ is) = ground (arith, length-add_line cart product n is)

-- The lines of another cart stay as they are.
other-add_line :
    (cart other product n : ℕ) (is : List CartItemRow)
    → (cart == other) ≡ false
    → lines_of other (add_line cart product n is) ≡ lines_of other is
unfolding add_line
other-add_line cart other product n [] h = ground arith
other-add_line cart other product n (i ∷ is) h =
    ground (arith, other-add_line cart other product n is h)

-- No cart has more lines than the limit.
abbrev pub WithinLimit : ℕ → Db → Type 0
WithinLimit max d = (cart : ℕ) → length (lines_of cart d.cart_items) ≤ max

-- The test of `Add` before the upsert.
abbrev full : ℕ → ℕ → ℕ → Db → Bool
full max cart product d =
    not (exists (is_line cart product) d.cart_items)
    && leb max (length (lines_of cart d.cart_items))

module _ (max cart product n : ℕ) (d : Db) (fits : full max cart product d ≡ false)
    (h : WithinLimit max d) where
  add_line-WithinLimit :
      (other : ℕ) → length (lines_of other (add_line cart product n d.cart_items)) ≤ max
  add_line-WithinLimit other = elim (Bool-cases (cart == other)) [
    | inl same ↦ rw⁻¹ (==→eq cart other same) here
    | inr differs ↦ rw (other-add_line cart other product n d.cart_items differs) (h other)
  ]
    where
      here : length (lines_of cart (add_line cart product n d.cart_items)) ≤ max
      here =
          let added = length-add_line cart product n d.cart_items in
          let before = h cart in rw added (ground (arith, before, fits))

  write_lines-WithinLimit :
      Holds (WithinLimit max) (write_lines tt (add_line cart product n d.cart_items) d)
  unfolding write_lines
  write_lines-WithinLimit = elim (Bool-cases (lines_ok (add_line cart product n d.cart_items))) [
    | inl good ↦ rw good add_line-WithinLimit
    | inr bad ↦ rw bad tt
  ]

module _ (env : Env) where
  -- What `Add` does once it has the cart.
  counted_add : ℕ → ℕ → ℕ → Action (Unit {0})
  counted_add cart product n = do
    counted ← Carts.count_and_has_item env cart product
    if not counted.1 && leb env.max_cart_items counted.0
        then raise Err.bad_request
        else Carts.add_item env cart product n

  abbrev Limited : Db → Type 0
  Limited = WithinLimit env.max_cart_items

  add_item-Limited :
      (cart product n : ℕ) (w : World Db)
      → full env.max_cart_items cart product w.db ≡ false
      → Limited w.db
      → Limited (Carts.add_item env cart product n w).1.db
  unfolding Carts.add_item
  add_item-Limited cart product n w fits h =
      sql-Holds Limited env.fault _ w h
        (write_lines-WithinLimit env.max_cart_items cart product n w.db fits h)

  counted_add-Limited : (cart product n : ℕ) → Keeps Limited (counted_add cart product n)
  unfolding counted_add Carts.count_and_has_item sql ◌>>=◌ raise
  counted_add-Limited cart product n = record {
    at = λ w h. elim (Bool-cases (w.aborted || env.fault w.tick)) [
      | inl bad ↦ rw bad h
      | inr good ↦ rw good (elim (Bool-cases (full env.max_cart_items cart product w.db)) [
        | inl refused ↦ rw refused h
        | inr fits ↦ rw fits (add_item-Limited cart product n _ fits h)
      ])
    ];
  }

  create_if_missing-Limited :
      (user : ℕ) (c : Option CartRow) (d : Db)
      → Limited d
      → Sound Limited (Carts.create_if_missing user c d)
  create_if_missing-Limited user none d h = record { holds = h }
  create_if_missing-Limited user (some c) d h = record { holds = h }

  get_or_create-Limited : (user : ℕ) → Keeps Limited (Carts.get_or_create env user)
  unfolding Carts.get_or_create
  get_or_create-Limited user = Keeps-Sound env.fault _ (λ d h. create_if_missing-Limited user _ d h)

  add_body-Limited : (user product n : ℕ) → Keeps Limited (Cart.add_body env user product n)
  unfolding Cart.add_body counted_add
  add_body-Limited user product n =
      Keeps-bind _ _ (get_or_create-Limited user) (λ cart. counted_add-Limited cart product n)

  get_levels-Limited : (ids : List ℕ) → Keeps Limited (get_levels env ids)
  unfolding get_levels
  get_levels-Limited [] = search keeps_rules
  get_levels-Limited (i ∷ ids) = search keeps_rules

  get_info-Limited : (id : ℕ) → Keeps Limited (get_info env id)
  unfolding get_info get_availability
  get_info-Limited id = search (keeps_rules, get_levels-Limited) depth 12

  add-Limited : (user product n : ℕ) → Keeps Limited (Cart.add env user product n)
  unfolding Cart.add
  add-Limited user product n = search (keeps_rules, get_info-Limited, add_body-Limited) depth 12

-- If no cart has more lines than the limit, then no cart has after a call of `Add`, for any user,
-- product and quantity, whatever statements fail.
pub add-WithinLimit :
    (env : Env) (user product n : ℕ) (w : World Db)
    → WithinLimit env.max_cart_items w.db
    → WithinLimit env.max_cart_items (Cart.add env user product n w).1.db
add-WithinLimit env user product n w h = (add-Limited env user product n).at w h
