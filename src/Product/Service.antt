-- ===== src/Product/Service.antt =====
-- internal/features/product/service.go: the catalogue, over its statements and the stock levels.
use go_api_project_template.Prelude.{
  ℕ, String, Bool, false, not, Option, none, some, List, [], ◌∷◌, ◌++◌, map, ◌==◌, find, str_eq,
  if◌then◌else◌,
}
use go_api_project_template.Prelude.Int.{ℤ}
use go_api_project_template.Errs.{Err, ok}
use go_api_project_template.Money.{Money}
use go_api_project_template.Database.{pure, raise, ◌>>=◌, ◌>>◌}
use go_api_project_template.Platform.Slug.{make_or_fallback, seed}
use go_api_project_template.Category.Domain.{Texts}
use go_api_project_template.Inventory.Repository.{ensure_level}
use go_api_project_template.Inventory.Service.{Availability, get_availability}
use go_api_project_template.Product.Catalogue as Rows
use go_api_project_template.Product.Listings as Listings
use go_api_project_template.Product.Listings.{ListTexts, PublishedListParams, AdminListParams}
use go_api_project_template.Schema.{ProductRow, ImageRow, Env, Action}

-- "product-".
abbrev fallback_prefix : List ℕ
fallback_prefix = b'p' ∷ b'r' ∷ b'o' ∷ b'd' ∷ b'u' ∷ b'c' ∷ b't' ∷ b'-' ∷ []

-- Lower case, the texts of keys, and the characters of a name.
pub record NameTexts : Type 0 where
  pub texts : Texts
  pub chars : String → List ℕ

abbrev product_slug : NameTexts → String → List ℕ → List ℕ
product_slug t name key =
    make_or_fallback t.texts.lower (t.chars name) (fallback_prefix ++ seed key)

pub record NewProduct : Type 0 where
  pub category_id : Option ℕ
  pub name : String
  pub description : Option String
  pub price : Money
  pub compare_at_price : Option Money
  pub sku : Option String
  pub status : String

abbrev default_currency : String
default_currency = "USD"

abbrev or_default : String → String → String
or_default default s = if str_eq s "" then default else s

-- `denominateLike` keeps the amount: a row has one currency for both prices.
abbrev amount_of : Option Money → Option ℤ
amount_of none = none
amount_of (some m) = some m.amount

unfoldable pub new_product : NameTexts → List ℕ → NewProduct → ProductRow
new_product t key p = record {
  id = 0;
  name = p.name;
  price = p.price.amount;
  currency = or_default default_currency p.price.currency;
  status = or_default "draft" p.status;
  deleted = false;
  category_id = p.category_id;
  slug = product_slug t p.name key;
  description = p.description;
  compare_at_price = amount_of p.compare_at_price;
  sku = p.sku;
  created_at = 0;
}

pub record ProductChanges : Type 0 where
  pub category_id : Option ℕ
  pub name : Option String
  pub description : Option String
  pub price : Option Money
  pub compare_at_price : Option Money
  pub sku : Option String
  pub status : Option String

abbrev keep_or {ℓ} : {A : Type ℓ} → Option A → Option A → Option A
keep_or none old = old
keep_or (some a) old = some a

abbrev renamed : NameTexts → Option String → ProductRow → ProductRow
renamed t none p = p
renamed t (some name) p = record p {
  name = name;
  slug = product_slug t name (t.texts.key_text p.id);
}

abbrev repriced : Option Money → ProductRow → ProductRow
repriced none p = p
repriced (some m) p = record p { price = m.amount; currency = m.currency }

abbrev status_or : Option String → String → String
status_or none old = old
status_or (some s) old = s

unfoldable pub changed : NameTexts → ProductChanges → ProductRow → ProductRow
changed t c p = record (repriced c.price (renamed t c.name p)) {
  category_id = keep_or c.category_id p.category_id;
  description = keep_or c.description p.description;
  compare_at_price = keep_or (amount_of c.compare_at_price) p.compare_at_price;
  sku = keep_or c.sku p.sku;
  status = status_or c.status p.status;
}

-- A product with its stock and its images.
pub record Shown : Type 0 where
  pub row : ProductRow
  pub images : List ImageRow
  pub on_hand : ℕ
  pub available : ℕ

abbrev with_level : List ImageRow → ProductRow → Option Availability → Shown
with_level images p none = record { row = p; images = images; on_hand = 0; available = 0 }
with_level images p (some a) = record {
  row = p;
  images = images;
  on_hand = a.on_hand;
  available = a.available;
}

abbrev shown : List ImageRow → List Availability → ProductRow → Shown
shown images levels p = with_level images p (find (λ a. a.product_id == p.id) levels)

abbrev row_id : ProductRow → ℕ
row_id p = p.id

pub record ShownListing : Type 0 where
  pub items : List Shown
  pub next_cursor : List ℕ
  pub has_more : Bool

module _ (env : Env) where
  abbrev pub enrich_all : List ImageRow → List ProductRow → Action (List Shown)
  enrich_all images [] = pure []
  enrich_all images (p ∷ ps) = do
    levels ← get_availability env (map row_id (p ∷ ps))
    pure (map (shown images levels) (p ∷ ps))

  abbrev pub one_shown : ProductRow → Action Shown
  one_shown p = do
    images ← Rows.get_images_by_product_id env p.id
    levels ← get_availability env (p.id ∷ [])
    pure (shown images levels p)

  unfoldable pub read_uuid : NameTexts → Action (List ℕ)
  read_uuid t w = (ok (t.texts.new_uuid w.tick), w)

  unfoldable pub create : NameTexts → NewProduct → Action ProductRow
  create t p = do
    key ← read_uuid t
    row ← Rows.create env (new_product t key p)
    ensure_level env row.id
    pure row

  unfoldable pub update : NameTexts → ℕ → ProductChanges → Action ProductRow
  update t id c = do
    p ← Rows.get_by_id env id
    Rows.update env (changed t c p)
    pure (changed t c p)

  unfoldable pub delete : ℕ → Action (Unit {0})
  delete id = Rows.delete env id

  -- The place in the order is 0 where the request has none.
  unfoldable pub add_image : ℕ → String → Option String → ℤ → Action ImageRow
  add_image product url alt sort_order = do
    Rows.get_by_id env product
    Rows.add_image env (record {
      id = 0;
      product_id = product;
      url = url;
      alt_text = alt;
      sort_order = sort_order;
      created_at = 0;
    })

  -- The image is deleted by its own key.
  unfoldable pub delete_image : ℕ → ℕ → Action (Unit {0})
  delete_image product image = do Rows.get_by_id env product; Rows.delete_image_row env image

  unfoldable pub get_by_slug : List ℕ → Action Shown
  get_by_slug slug = do
    p ← Rows.get_by_slug env slug
    if not (str_eq p.status "published") then raise Err.not_found else one_shown p

  unfoldable pub get_by_id : ℕ → Action Shown
  get_by_id id = do p ← Rows.get_by_id env id; one_shown p

  unfoldable pub list_published : ListTexts → PublishedListParams → Action ShownListing
  list_published texts q = do
    l ← Listings.list_published env texts q
    items ← enrich_all [] l.items
    pure (record { items = items; next_cursor = l.next_cursor; has_more = l.has_more })

  unfoldable pub list_admin : ListTexts → AdminListParams → Action (List Shown × ℕ)
  list_admin texts q = do
    l ← Listings.list_admin env texts q
    items ← enrich_all [] l.0
    pure (items, l.1)
