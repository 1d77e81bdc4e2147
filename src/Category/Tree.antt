-- ===== src/Category/Tree.antt =====
-- internal/features/category: the statements of the repository keep the categories a forest, an update
-- if the service's checks on the parent have passed.
use go_api_project_template.Prelude.{
  ℕ, ◌≡◌, refl, sym, ap, ◌∙◌, subst, inl, inr, Bool, true, false, not, ◌||◌, Option, none, some,
  List, [], ◌∷◌, ◌++◌, ◌==◌, ==→eq, find, exists, if◌then◌else◌, Bool-cases, Option-cases, arith,
}
use go_api_project_template.Database.Keeps.{Sound, sound_rules}
use go_api_project_template.Category.Domain.{Category}
use go_api_project_template.Category.Repository.{
  has_id, parent_exists, insert_category, without, child_of, delete_category, in_category,
}
use go_api_project_template.Schema.{Db}

-- A row with this key from which the parents lead to a row without one.
pub data Rooted (cs : List Category) : ℕ → Type 0 where
  root : (id : ℕ) (c : Category) → find (has_id id) cs ≡ some c → c.parent_id ≡ none → Rooted cs id
  under :
      (id p : ℕ) (c : Category)
      → find (has_id id) cs ≡ some c
      → c.parent_id ≡ some p
      → Rooted cs p
      → Rooted cs id

pub record Tree (d : Db) : Type 0 where
  pub rooted :
      (id : ℕ) (c : Category) → find (has_id id) d.categories ≡ some c → Rooted d.categories id

pub found_of :
    (id : ℕ) (cs : List Category)
    → exists (has_id id) cs ≡ true
    → (c : Category) × (find (has_id id) cs ≡ some c)
found_of id [] h = absurd (ground arith)
found_of id (c ∷ cs) h = elim (Bool-cases (has_id id c)) [
  | inl e ↦ (c, rw e refl)
  | inr e ↦ let r = found_of id cs (rw e at h) in (r.0, rw e r.1)
]

find-append :
    (id : ℕ) (cs : List Category) (row c : Category)
    → find (has_id id) cs ≡ some c
    → find (has_id id) (cs ++ row ∷ []) ≡ some c
find-append id [] row c h = absurd (ground arith)
find-append id (x ∷ cs) row c h = ground (arith, find-append id cs row c)

find-append_new :
    (id : ℕ) (cs : List Category) (row : Category)
    → find (has_id id) cs ≡ none
    → find (has_id id) (cs ++ row ∷ []) ≡ (if has_id id row then some row else none)
find-append_new id [] row h = refl
find-append_new id (x ∷ cs) row h = ground (arith, find-append_new id cs row)

append-Rooted :
    (cs : List Category) (row : Category) (id : ℕ) → Rooted cs id → Rooted (cs ++ row ∷ []) id
append-Rooted cs row id (Rooted.root i c f n) = root id c (find-append id cs row c f) n
append-Rooted cs row id (Rooted.under i p c f e r) =
    under id p c (find-append id cs row c f) e (append-Rooted cs row p r)

-- A new row stands under a row or is a root.
new_row-Rooted :
    (cs : List Category) (row : Category) (o : Option ℕ)
    → ((id : ℕ) (c : Category) → find (has_id id) cs ≡ some c → Rooted cs id)
    → row.parent_id ≡ o
    → parent_exists o cs ≡ true
    → (id : ℕ) → find (has_id id) (cs ++ row ∷ []) ≡ some row
    → Rooted (cs ++ row ∷ []) id
new_row-Rooted cs row none t e h id f = root id row f e
new_row-Rooted cs row (some p) t e h id f =
    let up = found_of p cs h in under id p row f e (append-Rooted cs row p (t p up.0 up.1))

append-Tree :
    (cs : List Category) (row : Category)
    → ((id : ℕ) (c : Category) → find (has_id id) cs ≡ some c → Rooted cs id)
    → parent_exists row.parent_id cs ≡ true
    → (id : ℕ) (c : Category) → find (has_id id) (cs ++ row ∷ []) ≡ some c
    → Rooted (cs ++ row ∷ []) id
append-Tree cs row t h id c f = elim (Option-cases (find (has_id id) cs)) [
  | inr (x, e) ↦ append-Rooted cs row id (t id x e)
  | inl e ↦ elim (Bool-cases (has_id id row)) [
    | inl own ↦
        new_row-Rooted cs row row.parent_id t refl h id (find-append_new id cs row e ∙ rw own refl)
    | inr other ↦ absurd (none_found (sym (find-append_new id cs row e ∙ rw other refl) ∙ f))
  ]
]
  where
    none_found : none ≡ some c → ⊥
    none_found e = cc

pub passed_check : (b : Bool) → not b ≡ false → b ≡ true
passed_check b h = ground arith

inserted-Tree :
    (n : ℕ) (row : Category) (d : Db)
    → Tree d
    → not (parent_exists row.parent_id d.categories) ≡ false
    → Tree (record d { categories = d.categories ++ row ∷ []; next_id = n })
inserted-Tree n row d t h = record {
  rooted =
      append-Tree d.categories row t.rooted
        (passed_check (parent_exists row.parent_id d.categories) h);
}

pub insert_category-Tree :
    (at : ℕ) (c : Category) (d : Db) → Tree d → Sound Tree (insert_category at c d)
unfolding insert_category
insert_category-Tree at c d t = search (sound_rules, inserted-Tree)

find-without :
    (id x : ℕ) (cs : List Category)
    → (id == x) ≡ false
    → find (has_id x) (without id cs) ≡ find (has_id x) cs
find-without id x [] h = refl
find-without id x (c ∷ cs) h = ground (arith, find-without id x cs)

find-without_own : (id : ℕ) (cs : List Category) → find (has_id id) (without id cs) ≡ none
find-without_own id [] = refl
find-without_own id (c ∷ cs) = ground (arith, find-without_own id cs)

no_child :
    (id x : ℕ) (c : Category) (cs : List Category)
    → exists (child_of id) cs ≡ false
    → find (has_id x) cs ≡ some c
    → c.parent_id ≡ some id
    → ⊥
no_child id x c [] h f e = cc
no_child id x c (y ∷ cs) h f e = elim (Bool-cases (has_id x y)) [
  | inl own ↦ absurd (ground arith)
  | inr other ↦ no_child id x c cs (ground arith) (rw other at f) e
]

not_parent :
    (id x p : ℕ) (c : Category) (cs : List Category)
    → exists (child_of id) cs ≡ false
    → find (has_id x) cs ≡ some c
    → c.parent_id ≡ some p
    → (id == p) ≡ false
not_parent id x p c cs h f e = elim (Bool-cases (id == p)) [
  | inl s ↦ absurd (no_child id x c cs h f (e ∙ ap some (sym (==→eq id p s))))
  | inr n ↦ n
]

without-Rooted :
    (id : ℕ) (cs : List Category)
    → exists (child_of id) cs ≡ false
    → (x : ℕ) → (id == x) ≡ false
    → Rooted cs x
    → Rooted (without id cs) x
without-Rooted id cs h x n (Rooted.root i c f e) = root x c (find-without id x cs n ∙ f) e
without-Rooted id cs h x n (Rooted.under i p c f e r) =
    under x p c (find-without id x cs n ∙ f) e
      (without-Rooted id cs h p (not_parent id x p c cs h f e) r)

deleted-Tree :
    (id : ℕ) (d : Db)
    → Tree d
    → (exists (child_of id) d.categories || exists (in_category id) d.products) ≡ false
    → Tree (record d { categories = without id d.categories })
deleted-Tree id d t h = record {
  rooted = λ x c f. elim (Bool-cases (id == x)) [
    | inl s ↦ absurd (gone x c f (==→eq id x s))
    | inr n ↦
        without-Rooted id d.categories (ground arith) x n
          (t.rooted x c (sym (find-without id x d.categories n) ∙ f))
  ];
}
  where
    gone : (x : ℕ) (c : Category) → find (has_id x) (without id d.categories) ≡ some c → id ≡ x → ⊥
    gone x c f s = absurd_some (
        sym (
          subst (λ i. find (has_id i) (without id d.categories) ≡ none) s
            (find-without_own id d.categories))
        ∙ f)
      where
        absurd_some : none ≡ some c → ⊥
        absurd_some e = cc

pub delete_category-Tree : (id : ℕ) (d : Db) → Tree d → Sound Tree (delete_category id d)
unfolding delete_category
delete_category-Tree id d t = search (sound_rules, deleted-Tree)
