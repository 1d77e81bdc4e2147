-- ===== src/Category/Moves.antt =====
-- internal/features/category: an update keeps the categories a forest, if the service's checks on the
-- parent have passed.
use go_api_project_template.Prelude.{
  ℕ, zero, suc, ◌<◌, ◌≡◌, refl, ap, ◌∙◌, subst, inl, inr, true, false, not, Option, none, some,
  List, [], ◌∷◌, length, ◌==◌, find, contains, Bool-cases, arith,
}
use go_api_project_template.Database.Keeps.{Sound, sound_rules}
use go_api_project_template.Category.Domain.{Category, max_depth}
use go_api_project_template.Category.Repository.{
  has_id, parent_exists, with_columns, rewrite, update_category, above, from_parent, walk,
  walk_from,
}
use go_api_project_template.Category.Tree.{Rooted, root, under, Tree, found_of, passed_check}
use go_api_project_template.Schema.{Db}

find-rewrite_other :
    (c : Category) (id : ℕ) (cs : List Category)
    → (c.id == id) ≡ false
    → find (has_id id) (rewrite c cs) ≡ find (has_id id) cs
find-rewrite_other c id [] h = refl
find-rewrite_other c id (x ∷ cs) h = ground (arith, find-rewrite_other c id cs)

find-rewrite :
    (c row : Category) (id : ℕ) (cs : List Category)
    → (c.id == id) ≡ true
    → find (has_id id) cs ≡ some row
    → find (has_id id) (rewrite c cs) ≡ some (with_columns c row)
find-rewrite c row id [] e h = absurd (ground arith)
find-rewrite c row id (x ∷ cs) e h = elim (Bool-cases (has_id id x)) [
  | inl own ↦ ground (arith)
  | inr other ↦ ground (arith, find-rewrite c row id cs)
]

find-has_id :
    (id : ℕ) (x : Category) (cs : List Category) → find (has_id id) cs ≡ some x → x.id ≡ id
find-has_id id x [] f = absurd (ground arith)
find-has_id id x (y ∷ cs) f = ground (arith, find-has_id id x cs)

walk_row :
    (n id : ℕ) (cs : List Category) (x : Category) (o : Option ℕ)
    → find (has_id id) cs ≡ some x
    → x.parent_id ≡ o
    → walk (suc n) cs id ≡ id ∷ from_parent (walk n cs) o
walk_row n id cs x o f e =
    ap (above (walk n cs)) f
    ∙ ap (λ q. x.id ∷ from_parent (walk n cs) q) e
    ∙ ap (λ i. i ∷ from_parent (walk n cs) o) (find-has_id id x cs f)

head_other :
    (id self : ℕ) (ids : List ℕ)
    → contains (id ∷ ids) self ≡ false
    → ((self == id) ≡ false) × (contains ids self ≡ false)
head_other id self ids h = ground arith

-- Where a walk from a row stops before the limit and does not meet the category that is updated, the
-- update leaves the way up from that row as it is.
avoiding-Rooted :
    (c : Category) (cs : List Category) (n id : ℕ)
    → Rooted cs id
    → length (walk n cs id) < n
    → contains (walk n cs id) c.id ≡ false
    → Rooted (rewrite c cs) id
avoiding-Rooted c cs zero id r l h = absurd (omega (arith, l))
avoiding-Rooted c cs (suc n) id (Rooted.root i x f e) l h =
    let row = walk_row n id cs x none f e in
    let other = head_other id c.id [] (subst (λ ids. contains ids c.id ≡ false) row h) in
    root id x (find-rewrite_other c id cs other.0 ∙ f) e
avoiding-Rooted c cs (suc n) id (Rooted.under i p x f e r) l h =
    let row = walk_row n id cs x (some p) f e in
    let other = head_other id c.id (walk n cs p) (subst (λ ids. contains ids c.id ≡ false) row h) in
    let short = subst (λ ids. length ids < suc n) row l in
    under id p x (find-rewrite_other c id cs other.0 ∙ f) e
      (avoiding-Rooted c cs n p r (omega (arith, short)) other.1)

-- What the service's checks say of the parent of a category that is updated: the walk up from it, one
-- row longer than the greatest depth, ended by itself and did not meet the category.
abbrev pub Accepted : ℕ → Option ℕ → List Category → Type 0
Accepted self none cs = Unit
Accepted self (some p) cs =
    (length (walk_from p max_depth cs) < suc max_depth)
    × (contains (walk_from p max_depth cs) self ≡ false)

-- The updated category is a root or stands under a row whose way up it is not on.
moved-Rooted :
    (c row : Category) (cs : List Category) (o : Option ℕ)
    → ((id : ℕ) (x : Category) → find (has_id id) cs ≡ some x → Rooted cs id)
    → c.parent_id ≡ o
    → parent_exists o cs ≡ true
    → Accepted c.id o cs
    → (id : ℕ) → (c.id == id) ≡ true
    → find (has_id id) cs ≡ some row
    → Rooted (rewrite c cs) id
moved-Rooted c row cs none t e h a id s f =
    root id (with_columns c row) (find-rewrite c row id cs s f) e
moved-Rooted c row cs (some p) t e h a id s f =
    let up = found_of p cs h in
    under id p (with_columns c row) (find-rewrite c row id cs s f) e
      (avoiding-Rooted c cs (suc max_depth) p (t p up.0 up.1) a.0 a.1)

-- All other categories are above it as before, or below it.
rewrite-Rooted :
    (c : Category) (cs : List Category)
    → ((id : ℕ) (row : Category)
        → (c.id == id) ≡ true
        → find (has_id id) cs ≡ some row
        → Rooted (rewrite c cs) id)
    → (id : ℕ) → Rooted cs id
    → Rooted (rewrite c cs) id
rewrite-Rooted c cs own id (Rooted.root i x f e) = elim (Bool-cases (c.id == id)) [
  | inl s ↦ own id x s f
  | inr n ↦ root id x (find-rewrite_other c id cs n ∙ f) e
]
rewrite-Rooted c cs own id (Rooted.under i p x f e r) = elim (Bool-cases (c.id == id)) [
  | inl s ↦ own id x s f
  | inr n ↦ under id p x (find-rewrite_other c id cs n ∙ f) e (rewrite-Rooted c cs own p r)
]

before :
    (c x : Category) (id : ℕ) (cs : List Category)
    → find (has_id id) (rewrite c cs) ≡ some x
    → (y : Category) × (find (has_id id) cs ≡ some y)
before c x id [] f = absurd (ground arith)
before c x id (y ∷ cs) f = elim (Bool-cases (has_id id y)) [
  | inl own ↦ (y, rw own refl)
  | inr other ↦ let r = before c x id cs (ground arith) in (r.0, rw other r.1)
]

moved-Tree :
    (c : Category) (d : Db)
    → Tree d
    → Accepted c.id c.parent_id d.categories
    → not (parent_exists c.parent_id d.categories) ≡ false
    → Tree (record d { categories = rewrite c d.categories })
moved-Tree c d t a h = record {
  rooted = λ id x f.
      let y = before c x id d.categories f in
      rewrite-Rooted c d.categories
        (λ i row s g.
          moved-Rooted c row d.categories c.parent_id t.rooted refl
            (passed_check (parent_exists c.parent_id d.categories) h) a i s g)
        id (t.rooted id y.0 y.1);
}

pub update_category-Tree :
    (c : Category) (d : Db)
    → Tree d
    → Accepted c.id c.parent_id d.categories
    → Sound Tree (update_category c d)
unfolding update_category
update_category-Tree c d t a = search (sound_rules, moved-Tree)
