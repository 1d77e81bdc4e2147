-- ===== src/Cart/Service.antt =====
-- internal/features/cart/service.go.
use go_api_project_template.Prelude.{
  ℕ, not, ◌&&◌, Option, none, some, List, [], ◌∷◌, map, ltb, leb, ◌==◌, find, str_eq, if◌then◌else◌,
}
use go_api_project_template.Prelude.Int.{pos}
use go_api_project_template.Errs.{Err}
use go_api_project_template.Money
use go_api_project_template.Database.{pure, raise, run_tx, ◌>>=◌, ◌>>◌}
use go_api_project_template.Product.{Info, get_info, get_info_by_ids}
use go_api_project_template.Cart.Domain.{Cart, Item, Product, SnapshotItem}
use go_api_project_template.Cart.Repository as Repository
use go_api_project_template.Schema.{Env, Action}

abbrev unavailable : Product
unavailable = record { name = ""; price = Money.new (pos 0) ""; stock = 0; status = "unavailable" }

abbrev described : Option Info → Product
described none = unavailable
described (some i) = record {
  name = i.name;
  price = i.price;
  stock = i.available;
  status = i.status;
}

-- What `Get` fills in for an item.
abbrev describe : List Info → Item → Item
describe infos it = record it {
  product = some (described (find (λ i. i.id == it.product_id) infos));
}

abbrev product_of : Item → ℕ
product_of it = it.product_id

abbrev snapshot_item : ℕ → ℕ → Option Product → SnapshotItem
snapshot_item p n none = record {
  product_id = p;
  quantity = n;
  name = "";
  price = Money.new (pos 0) "";
  status = "";
}
snapshot_item p n (some product) = record {
  product_id = p;
  quantity = n;
  name = product.name;
  price = product.price;
  status = product.status;
}

abbrev snapshot_of : Item → SnapshotItem
snapshot_of it = snapshot_item it.product_id it.quantity it.product

module _ (env : Env) where
  -- The body of the transaction of `Add`.
  unfoldable pub add_body : ℕ → ℕ → ℕ → Action (Unit {0})
  add_body user product quantity = do
    cart ← Repository.get_or_create env user
    counted ← Repository.count_and_has_item env cart product
    if not counted.1 && leb env.max_cart_items counted.0
        then raise Err.bad_request
        else Repository.add_item env cart product quantity

  unfoldable pub add : ℕ → ℕ → ℕ → Action (Unit {0})
  add user product quantity = do
    info ← get_info env product
    if not (str_eq info.status "published")
        then raise Err.bad_request
        else if ltb info.available quantity
        then raise Err.insufficient_stock
        else run_tx env.fault (add_body user product quantity)

  unfoldable pub remove : ℕ → ℕ → Action (Unit {0})
  remove user product = do
    cart ← Repository.get_or_create env user
    Repository.remove_item env cart product

  unfoldable pub update_body : ℕ → ℕ → ℕ → Action (Unit {0})
  update_body user product quantity = do
    cart ← Repository.get_or_create env user
    Repository.update_item_quantity env cart product quantity

  unfoldable pub update_quantity : ℕ → ℕ → ℕ → Action (Unit {0})
  update_quantity user product quantity = do
    info ← get_info env product
    if not (str_eq info.status "published")
        then raise Err.bad_request
        else if ltb info.available quantity
        then raise Err.insufficient_stock
        else update_body user product quantity

  unfoldable pub fill : Cart → List Item → Action Cart
  fill c [] = pure c
  fill c (it ∷ its) = do
    infos ← get_info_by_ids env (map product_of (it ∷ its))
    pure (record c { items = map (describe infos) (it ∷ its) })

  unfoldable pub get : ℕ → Action Cart
  get user = do c ← Repository.get_cart env user; fill c c.items

  unfoldable pub snapshot : ℕ → Action (List SnapshotItem)
  snapshot user = do c ← get user; pure (map snapshot_of c.items)

  unfoldable pub clear : ℕ → Action (Unit {0})
  clear user = Repository.clear env user

  unfoldable pub lock : ℕ → Action (Unit {0})
  lock user = do Repository.get_cart_for_lock env user; pure tt
