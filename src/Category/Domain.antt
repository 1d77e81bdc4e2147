-- ===== src/Category/Domain.antt =====
-- internal/features/category/domain/category.go.
use go_api_project_template.Prelude.{
  ℕ, ◌+◌, String, Bool, false, Option, none, some, List, [], ◌∷◌, ◌++◌, ltb, ◌==◌, if◌then◌else◌,
}
use go_api_project_template.Prelude.Int.{ℤ}
use go_api_project_template.Errs.{Err}
use go_api_project_template.Platform.Slug.{make_or_fallback, seed}

abbrev pub max_depth : ℕ
max_depth = 5

pub record Category : Type 0 where
  pub id : ℕ
  pub name : List ℕ
  pub slug : List ℕ
  pub description : Option String
  pub parent_id : Option ℕ
  pub sort_order : ℤ
  pub active : Bool
  pub created_at : ℕ

-- What the module uses of texts and keys: `strings.ToLower`, the text of a key, the text of a new
-- UUID, and the order of names in the database.
pub record Texts : Type 0 where
  pub lower : List ℕ → List ℕ
  pub key_text : ℕ → List ℕ
  pub new_uuid : ℕ → List ℕ
  pub name_before : List ℕ → List ℕ → Bool

-- "category-".
abbrev pub fallback_prefix : List ℕ
fallback_prefix = b'c' ∷ b'a' ∷ b't' ∷ b'e' ∷ b'g' ∷ b'o' ∷ b'r' ∷ b'y' ∷ b'-' ∷ []

unfoldable pub slugify : Texts → List ℕ → List ℕ → List ℕ
slugify texts name key = make_or_fallback texts.lower name (fallback_prefix ++ seed key)

-- `uuid.Nil` is `none`; no row has it.
abbrev pub is_key : ℕ → Option ℕ → Bool
is_key id none = false
is_key id (some self) = id == self

abbrev pub validate_parent_self : ℕ → Option ℕ → Option Err
validate_parent_self parent self = if is_key parent self then some Err.bad_request else none

abbrev pub validate_parent_depth : ℕ → Bool → Option Err
validate_parent_depth depth forms_cycle =
    if depth == 0
    then some Err.bad_request
    else if forms_cycle
    then some Err.bad_request
    else if ltb max_depth (depth + 1)
    then some Err.bad_request
    else none
