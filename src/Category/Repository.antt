-- ===== src/Category/Repository.antt =====
-- internal/features/category/adapter/postgres/repository.go: each method is one statement. The table is
-- that of create_categories.sql: slugs are unique, a parent is a row, and a row that is the parent of
-- another, or the category of a product, is not deleted.
use go_api_project_template.Prelude.{
  ℕ, zero, suc, Bool, true, false, not, ◌&&◌, ◌||◌, Option, none, some, List, [], ◌∷◌, ◌++◌, length,
  ◌==◌, find, exists, contains, if◌then◌else◌,
}
use go_api_project_template.Prelude.Int.{ltb_ℤ, eqb_ℤ}
use go_api_project_template.Errs.{Err}
use go_api_project_template.Database.{Outcome, done, violation, sql, pure, raise, or_raise, ◌>>=◌}
use go_api_project_template.Category.Domain.{Category, Texts}
use go_api_project_template.Schema.{ProductRow, Db, Env, Action, clock}

abbrev pub has_id : ℕ → Category → Bool
has_id id c = c.id == id

abbrev pub same_text : List ℕ → List ℕ → Bool
same_text [] [] = true
same_text [] (y ∷ ys) = false
same_text (x ∷ xs) [] = false
same_text (x ∷ xs) (y ∷ ys) = x == y && same_text xs ys

abbrev has_slug : List ℕ → Category → Bool
has_slug slug c = same_text c.slug slug

abbrev other_slug : ℕ → List ℕ → Category → Bool
other_slug id slug c = not (has_id id c) && has_slug slug c

-- The foreign key of `parent_id`.
abbrev pub parent_exists : Option ℕ → List Category → Bool
parent_exists none cs = true
parent_exists (some p) cs = exists (has_id p) cs

unfoldable pub insert_category : ℕ → Category → Db → Outcome Db Category
insert_category at c d =
    if exists (has_slug c.slug) d.categories
    then violation Err.conflict
    else if not (parent_exists c.parent_id d.categories)
    then violation Err.internal
    else (let row = record c { id = d.next_id; created_at = at } in
        done row (record d { categories = d.categories ++ row ∷ []; next_id = suc d.next_id }))

-- The columns of the UPDATE: all but the key and the time of creation.
abbrev pub with_columns : Category → Category → Category
with_columns c row = record c { id = row.id; created_at = row.created_at }

abbrev pub rewrite : Category → List Category → List Category
rewrite c [] = []
rewrite c (row ∷ rows) = (if has_id c.id row then with_columns c row else row) ∷ rewrite c rows

unfoldable pub update_category : Category → Db → Outcome Db Bool
update_category c d =
    if not (exists (has_id c.id) d.categories)
    then done false d
    else if exists (other_slug c.id c.slug) d.categories
    then violation Err.conflict
    else if not (parent_exists c.parent_id d.categories)
    then violation Err.internal
    else done true (record d { categories = rewrite c d.categories })

abbrev pub without : ℕ → List Category → List Category
without id [] = []
without id (c ∷ cs) = let rest = without id cs in if has_id id c then rest else c ∷ rest

-- A row that refers to the key.
abbrev pub child_of : ℕ → Category → Bool
child_of id c = elim c.parent_id [ none ↦ false | some p ↦ p == id ]

abbrev pub in_category : ℕ → ProductRow → Bool
in_category id p = elim p.category_id [ none ↦ false | some c ↦ c == id ]

unfoldable pub delete_category : ℕ → Db → Outcome Db Bool
delete_category id d =
    if not (exists (has_id id) d.categories)
    then done false d
    else if exists (child_of id) d.categories || exists (in_category id) d.products
    then violation Err.conflict
    else done true (record d { categories = without id d.categories })

-- The recursive query of `AncestorDepthAndCycle`: the keys from a row up to the root, `n` at most.
abbrev pub from_parent : (ℕ → List ℕ) → Option ℕ → List ℕ
from_parent up none = []
from_parent up (some p) = up p

abbrev pub above : (ℕ → List ℕ) → Option Category → List ℕ
above up none = []
above up (some c) = c.id ∷ from_parent up c.parent_id

abbrev pub walk : ℕ → List Category → ℕ → List ℕ
walk zero cs id = []
walk (suc n) cs id = above (walk n cs) (find (has_id id) cs)

abbrev pub forms_cycle : Option ℕ → List ℕ → Bool
forms_cycle none ids = false
forms_cycle (some self) ids = contains ids self

-- `ORDER BY sort_order, name`.
abbrev listed_before : Texts → Category → Category → Bool
listed_before texts a b =
    ltb_ℤ a.sort_order b.sort_order
    || (eqb_ℤ a.sort_order b.sort_order && texts.name_before a.name b.name)

abbrev insert_ordered : Texts → Category → List Category → List Category
insert_ordered texts c [] = c ∷ []
insert_ordered texts c (x ∷ xs) =
    let rest = insert_ordered texts c xs in if listed_before texts x c then x ∷ rest else c ∷ x ∷ xs

abbrev active_in_order : Texts → List Category → List Category
active_in_order texts [] = []
active_in_order texts (c ∷ cs) =
    let rest = active_in_order texts cs in if c.active then insert_ordered texts c rest else rest

-- The query goes one row past the greatest depth.
abbrev pub walk_from : ℕ → ℕ → List Category → List ℕ
walk_from parent max_depth cs = walk (suc max_depth) cs parent

module _ (env : Env) where
  unfoldable pub create : Category → Action Category
  create c = do at ← clock env; sql env.fault (insert_category at c)

  unfoldable pub get_by_id : ℕ → Action Category
  get_by_id id = do
    row ← sql env.fault (λ (d : Db). done (find (has_id id) d.categories) d)
    or_raise Err.not_found row

  unfoldable pub get_by_slug : List ℕ → Action Category
  get_by_slug slug = do
    row ← sql env.fault (λ (d : Db). done (find (λ c. has_slug slug c && c.active) d.categories) d)
    or_raise Err.not_found row

  unfoldable pub list : Texts → Action (List Category)
  list texts = sql env.fault (λ (d : Db). done (active_in_order texts d.categories) d)

  unfoldable pub update : Category → Action (Unit {0})
  update c = do
    found ← sql env.fault (update_category c)
    if found then pure tt else raise Err.not_found

  unfoldable pub delete : ℕ → Action (Unit {0})
  delete id = do
    found ← sql env.fault (delete_category id)
    if found then pure tt else raise Err.not_found

  unfoldable pub ancestor_depth_and_cycle : ℕ → Option ℕ → ℕ → Action (ℕ × Bool)
  ancestor_depth_and_cycle parent self max_depth = sql env.fault (λ (d : Db).
      let up = walk_from parent max_depth d.categories in done (length up, forms_cycle self up) d)
