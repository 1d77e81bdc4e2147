-- ===== src/Product/Catalogue.antt =====
-- internal/features/product/adapter/postgres/repository.go: the statements of the catalogue. The table
-- is that of create_products.sql: slugs and SKUs are unique, also over deleted rows, prices are not
-- negative, a status is one of three, and a category is a row.
use go_api_project_template.Prelude.{
  ℕ, suc, String, Bool, true, false, not, ◌&&◌, ◌||◌, Option, none, some, List, [], ◌∷◌, ◌++◌, ◌==◌,
  find, exists, str_eq, if◌then◌else◌,
}
use go_api_project_template.Prelude.Int.{pos, ltb_ℤ}
use go_api_project_template.Errs.{Err}
use go_api_project_template.Database.{Outcome, done, violation, sql, pure, raise, or_raise, ◌>>=◌}
use go_api_project_template.Category.Repository.{same_text}
use go_api_project_template.Category.Repository as Categories
use go_api_project_template.Schema.{ProductRow, ImageRow, Db, Env, Action, clock}

abbrev pub live_id : ℕ → ProductRow → Bool
live_id id p = p.id == id && not p.deleted

abbrev live_slug : List ℕ → ProductRow → Bool
live_slug slug p = same_text p.slug slug && not p.deleted

abbrev same_sku : Option String → Option String → Bool
same_sku none s = false
same_sku (some a) none = false
same_sku (some a) (some b) = str_eq a b

-- A row that would break a unique constraint.
abbrev clashes : ProductRow → ProductRow → Bool
clashes p q = same_text p.slug q.slug || same_sku p.sku q.sku

abbrev other_clashes : ProductRow → ProductRow → Bool
other_clashes p q = not (p.id == q.id) && clashes p q

abbrev known_status : String → Bool
known_status s = str_eq s "draft" || str_eq s "published" || str_eq s "archived"

abbrev category_exists : Option ℕ → Db → Bool
category_exists none d = true
category_exists (some c) d = exists (Categories.has_id c) d.categories

-- The CHECK constraints of a row.
abbrev checked : ProductRow → Bool
checked p = known_status p.status && not (ltb_ℤ p.price (pos 0))

unfoldable pub insert_product : ℕ → ProductRow → Db → Outcome Db ProductRow
insert_product at p d =
    if not (checked p)
    then violation Err.internal
    else if exists (clashes p) d.products
    then violation Err.conflict
    else if not (category_exists p.category_id d)
    then violation Err.internal
    else (let row = record p { id = d.next_id; created_at = at; deleted = false } in
        done row (record d { products = d.products ++ row ∷ []; next_id = suc d.next_id }))

-- The columns of the UPDATE: all but the key, the time of creation and of deletion.
abbrev with_columns : ProductRow → ProductRow → ProductRow
with_columns p row = record p { id = row.id; created_at = row.created_at; deleted = row.deleted }

abbrev change_rows :
    (ProductRow → Bool) → (ProductRow → ProductRow) → List ProductRow → List ProductRow
change_rows q f [] = []
change_rows q f (p ∷ ps) = (if q p then f p else p) ∷ change_rows q f ps

unfoldable pub update_product : ProductRow → Db → Outcome Db Bool
update_product p d =
    if not (exists (live_id p.id) d.products)
    then done false d
    else if not (checked p)
    then violation Err.internal
    else if exists (other_clashes p) d.products
    then violation Err.conflict
    else if not (category_exists p.category_id d)
    then violation Err.internal
    else done true (record d { products = change_rows (live_id p.id) (with_columns p) d.products })

abbrev as_deleted : ProductRow → ProductRow
as_deleted p = record p { deleted = true }

unfoldable pub delete_product : ℕ → Db → Outcome Db Bool
delete_product id d =
    done (exists (live_id id) d.products)
      (record d { products = change_rows (live_id id) as_deleted d.products })

unfoldable pub insert_image : ℕ → ImageRow → Db → Outcome Db ImageRow
insert_image at i d =
    if exists (λ p. p.id == i.product_id) d.products
    then (let row = record i { id = d.next_id; created_at = at } in
        done row (record d { images = d.images ++ row ∷ []; next_id = suc d.next_id }))
    else violation Err.internal

abbrev image_id : ℕ → ImageRow → Bool
image_id id i = i.id == id

abbrev without_image : ℕ → List ImageRow → List ImageRow
without_image id [] = []
without_image id (i ∷ is) =
    let rest = without_image id is in if image_id id i then rest else i ∷ rest

unfoldable pub delete_image : ℕ → Db → Outcome Db Bool
delete_image id d =
    done (exists (image_id id) d.images) (record d { images = without_image id d.images })

-- `ORDER BY sort_order`.
abbrev insert_image_ordered : ImageRow → List ImageRow → List ImageRow
insert_image_ordered i [] = i ∷ []
insert_image_ordered i (x ∷ xs) =
    let rest = insert_image_ordered i xs in
    if ltb_ℤ x.sort_order i.sort_order then x ∷ rest else i ∷ x ∷ xs

abbrev images_of : ℕ → List ImageRow → List ImageRow
images_of id [] = []
images_of id (i ∷ is) =
    let rest = images_of id is in if i.product_id == id then insert_image_ordered i rest else rest

module _ (env : Env) where
  unfoldable pub get_by_id : ℕ → Action ProductRow
  get_by_id id = do
    row ← sql env.fault (λ (d : Db). done (find (live_id id) d.products) d)
    or_raise Err.not_found row

  unfoldable pub get_by_slug : List ℕ → Action ProductRow
  get_by_slug slug = do
    row ← sql env.fault (λ (d : Db). done (find (live_slug slug) d.products) d)
    or_raise Err.not_found row

  unfoldable pub get_images_by_product_id : ℕ → Action (List ImageRow)
  get_images_by_product_id id = sql env.fault (λ (d : Db). done (images_of id d.images) d)

  unfoldable pub create : ProductRow → Action ProductRow
  create p = do at ← clock env; sql env.fault (insert_product at p)

  unfoldable pub update : ProductRow → Action (Unit {0})
  update p = do
    found ← sql env.fault (update_product p)
    if found then pure tt else raise Err.not_found

  unfoldable pub delete : ℕ → Action (Unit {0})
  delete id = do
    found ← sql env.fault (delete_product id)
    if found then pure tt else raise Err.not_found

  unfoldable pub add_image : ImageRow → Action ImageRow
  add_image i = do at ← clock env; sql env.fault (insert_image at i)

  unfoldable pub delete_image_row : ℕ → Action (Unit {0})
  delete_image_row id = do
    found ← sql env.fault (delete_image id)
    if found then pure tt else raise Err.not_found
