-- ===== src/Category/Service.antt =====
-- internal/features/category/service.go, and `CountPublished` of internal/features/product.
use go_api_project_template.Prelude.{
  ℕ, suc, String, Bool, true, false, not, ◌&&◌, Option, none, some, List, [], ◌∷◌, ◌==◌, str_eq,
  ltb, if◌then◌else◌,
}
use go_api_project_template.Prelude.Int.{ℤ, pos}
use go_api_project_template.Errs.{Err, ok}
use go_api_project_template.Database.{done, sql, pure, raise, ◌>>=◌, ◌>>◌}
use go_api_project_template.Category.Domain.{
  Category, Texts, slugify, max_depth, validate_parent_self, validate_parent_depth,
}
use go_api_project_template.Category.Repository as Categories
use go_api_project_template.Schema.{ProductRow, Db, Env, Action}

-- The optional fields of a request.
pub record Fields : Type 0 where
  pub name : Option (List ℕ)
  pub description : Option String
  pub parent_id : Option ℕ
  pub sort_order : Option ℤ
  pub active : Option Bool

abbrev set_if {ℓ} : {A : Type ℓ} → Option A → A → A
set_if none old = old
set_if (some a) old = a

abbrev keep_or {ℓ} : {A : Type ℓ} → Option A → Option A → Option A
keep_or none old = old
keep_or (some a) old = some a

abbrev pub new_category : Texts → List ℕ → List ℕ → Fields → Category
unfolding slugify
new_category texts key name f = record {
  id = 0;
  name = name;
  slug = slugify texts name key;
  description = f.description;
  parent_id = f.parent_id;
  sort_order = set_if f.sort_order (pos 0);
  active = set_if f.active true;
  created_at = 0;
}

abbrev renamed : Texts → Option (List ℕ) → Category → Category
renamed texts none c = c
renamed texts (some name) c = record c {
  name = name;
  slug = slugify texts name (texts.key_text c.id);
}

abbrev pub changed : Texts → Fields → Category → Category
changed texts f c = record (renamed texts f.name c) {
  description = keep_or f.description c.description;
  parent_id = keep_or f.parent_id c.parent_id;
  sort_order = set_if f.sort_order c.sort_order;
  active = set_if f.active c.active;
}

abbrev pub none_or_raise : Option Err → Action (Unit {0})
none_or_raise none = pure tt
none_or_raise (some e) = raise e

abbrev is_published : ℕ → ProductRow → Bool
is_published id p =
    elim p.category_id [ none ↦ false | some c ↦ c == id ]
    && str_eq p.status "published"
    && not p.deleted

abbrev published : ℕ → List ProductRow → ℕ
published id [] = 0
published id (p ∷ ps) = let rest = published id ps in if is_published id p then suc rest else rest

module _ (env : Env) where
  unfoldable pub count_published : ℕ → Action ℕ
  count_published id = sql env.fault (λ (d : Db). done (published id d.products) d)

  -- The checks on a parent, where there is one; the key is none for a category to be made.
  unfoldable pub validate_parent : Option ℕ → Option ℕ → Action (Unit {0})
  validate_parent none self = pure tt
  validate_parent (some parent) self = do
    none_or_raise (validate_parent_self parent self)
    found ← Categories.ancestor_depth_and_cycle env parent self max_depth
    none_or_raise (validate_parent_depth found.0 found.1)

  unfoldable pub read_uuid : Texts → Action (List ℕ)
  read_uuid texts w = (ok (texts.new_uuid w.tick), w)

  unfoldable pub create : Texts → List ℕ → Fields → Action Category
  create texts name f = do
    key ← read_uuid texts
    validate_parent f.parent_id none
    Categories.create env (new_category texts key name f)

  unfoldable pub update : Texts → ℕ → Fields → Action Category
  update texts id f = do
    c ← Categories.get_by_id env id
    validate_parent (changed texts f c).parent_id (some c.id)
    Categories.update env (changed texts f c)
    pure (changed texts f c)

  unfoldable pub delete : ℕ → Action (Unit {0})
  delete id = do
    count ← count_published id
    if ltb 0 count then raise Err.bad_request else Categories.delete env id

  unfoldable pub list : Texts → Action (List Category)
  list texts = Categories.list env texts

  unfoldable pub get_by_slug : List ℕ → Action Category
  get_by_slug slug = Categories.get_by_slug env slug
