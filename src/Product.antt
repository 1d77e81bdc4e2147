-- ===== src/Product.antt =====
-- internal/features/product, the part that other modules call: `GetInfo` and `GetInfoByIDs` of
-- service.go with `enrich`, and the two queries below them (adapter/postgres/repository.go).
pub mod Catalogue
pub mod Listings
pub mod Service
use go_api_project_template.Prelude.{
  ℕ, String, not, ◌&&◌, Option, none, some, List, [], ◌∷◌, map, ◌==◌, find, contains, if◌then◌else◌,
}
use go_api_project_template.Errs.{Err}
use go_api_project_template.Money
use go_api_project_template.Money.{Money}
use go_api_project_template.Database.{done, sql, pure, or_raise, ◌>>=◌, ◌>>◌}
use go_api_project_template.Inventory.Service.{Availability, get_availability}
use go_api_project_template.Schema.{ProductRow, Db, Env, Action}

pub record Info : Type 0 where
  pub id : ℕ
  pub name : String
  pub price : Money
  pub status : String
  pub available : ℕ

abbrev level_of : ℕ → List Availability → Option Availability
level_of id = find (λ a. a.product_id == id)

-- A product with no level has none available.
abbrev available_of : Option Availability → ℕ
available_of none = 0
available_of (some a) = a.available

abbrev shown_status : ProductRow → String
shown_status p = if p.deleted then "unavailable" else p.status

abbrev info : List Availability → ProductRow → Info
info levels p = record {
  id = p.id;
  name = p.name;
  price = Money.new p.price p.currency;
  status = shown_status p;
  available = available_of (level_of p.id levels);
}

abbrev with_ids : List ℕ → List ProductRow → List ProductRow
with_ids ids [] = []
with_ids ids (p ∷ ps) = if contains ids p.id then p ∷ with_ids ids ps else with_ids ids ps

abbrev row_id : ProductRow → ℕ
row_id p = p.id

module _ (env : Env) where
  -- `enrich`: one lookup of the levels of all the products.
  unfoldable pub enrich : List ProductRow → Action (List Info)
  enrich [] = pure []
  enrich (p ∷ ps) = do
    levels ← get_availability env (map row_id (p ∷ ps))
    pure (map (info levels) (p ∷ ps))

  unfoldable pub get_by_ids_including_deleted : List ℕ → Action (List ProductRow)
  get_by_ids_including_deleted [] = pure []
  get_by_ids_including_deleted (i ∷ ids) =
      sql env.fault (λ (d : Db). done (with_ids (i ∷ ids) d.products) d)

  unfoldable pub get_info_by_ids : List ℕ → Action (List Info)
  get_info_by_ids ids = do products ← get_by_ids_including_deleted ids; enrich products

  -- `GetInfo`: the product, its images (read and not used here) and its level.
  unfoldable pub get_info : ℕ → Action Info
  get_info id = do
    row ← sql env.fault (λ (d : Db). done (find (λ p. p.id == id && not p.deleted) d.products) d)
    p ← or_raise Err.not_found row
    sql env.fault (λ (d : Db). done tt d)
    levels ← get_availability env (p.id ∷ [])
    pure (info levels p)
