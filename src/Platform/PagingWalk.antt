-- ===== src/Platform/PagingWalk.antt =====
-- internal/platform/paging and the listings by cursor: a client that follows the cursors, and the text
-- of a cursor.
use go_api_project_template.Prelude.{
  ℕ, zero, suc, ◌<◌, ◌≡◌, refl, sym, ap, ◌∙◌, subst, inl, inr, true, false, Option, none, some,
  List, [], ◌∷◌, ◌++◌, length, All, ltb, Bool-cases, Option-cases, arith,
}
use go_api_project_template.Platform.Paging.{
  Place, below, take, insert_desc, newest_first, rows_below, last_place, fetch_page, follow,
}
use go_api_project_template.Platform.PagingLaws.{
  below_asym, below_irrefl, drop, take-drop, take_all, take-take, length-take, length-drop, Desc,
  DistinctPlaces, newest_first-Desc, rows_below_all, AllBelow-rows_below, Desc-rows_below,
  rows_below_twice,
}

some_inj : (p q : Place) → some p ≡ some q → p ≡ q
some_inj p q e = cc

append_nil : {A : Type 0} (xs : List A) → xs ++ [] ≡ xs
append_nil [] = refl
append_nil (x ∷ xs) = ap (λ ys. x ∷ ys) (append_nil xs)

-- A page takes at least one row.
drops :
    {A : Type 0} (n : ℕ) (ys : List A)
    → ltb (suc n) (length ys) ≡ true
    → length (drop (suc n) ys) < length ys
drops n [] h = absurd (ground arith)
drops n (y ∷ ys) h = omega (arith, length-drop n ys)

module _ {A : Type 0} (place : A → Place) where
  -- What holds of every place holds of the last one.
  last-All :
      (Q : Place → Type 0) (xs : List A) (p : Place)
      → All (λ y. Q (place y)) xs
      → last_place place xs ≡ some p
      → Q p
  last-All Q [] p h e = absurd (cc)
  last-All Q (x ∷ []) p h e = subst Q (some_inj (place x) p e) h.0
  last-All Q (x ∷ y ∷ ys) p h e = last-All Q (y ∷ ys) p h.1 e

  All-take : (Q : A → Type 0) (n : ℕ) (xs : List A) → All Q xs → All Q (take n xs)
  All-take Q zero xs h = tt
  All-take Q (suc n) [] h = tt
  All-take Q (suc n) (x ∷ xs) h = (h.0, All-take Q n xs h.1)

  -- Below the last place of a page are the rows after the page.
  rows_below_last :
      (n : ℕ) (xs : List A) (p : Place)
      → Desc place xs
      → last_place place (take (suc n) xs) ≡ some p
      → rows_below place (some p) xs ≡ drop (suc n) xs
  rows_below_last n [] p d e = absurd (cc)
  rows_below_last zero (x ∷ xs) p d e =
      subst (λ q. rows_below place (some q) (x ∷ xs) ≡ xs) (some_inj (place x) p e)
        (rw (below_irrefl (place x)) (rows_below_all place (place x) xs d.0))
  rows_below_last (suc n) (x ∷ []) p d e =
      subst (λ q. rows_below place (some q) (x ∷ []) ≡ []) (some_inj (place x) p e)
        (rw (below_irrefl (place x)) refl)
  rows_below_last (suc n) (x ∷ y ∷ ys) p d e =
      let past : below (place x) p ≡ true =
        last-All (λ q. below (place x) q ≡ true) (take (suc n) (y ∷ ys)) p
          (All-take (λ z. below (place x) (place z) ≡ true) (suc n) (y ∷ ys) d.0) e in
      rw (below_asym (place x) p past) (rows_below_last n (y ∷ ys) p d.1 e)

  -- The rows below the cursor of a page are those after the page.
  after_page :
      (n : ℕ) (c : Option Place) (xs : List A) (p : Place)
      → Desc place xs
      → last_place place (take (suc n) (rows_below place c xs)) ≡ some p
      → rows_below place (some p) xs ≡ drop (suc n) (rows_below place c xs)
  after_page n none xs p d e = rows_below_last n xs p d e
  after_page n (some q) xs p d e =
      let ys = rows_below place (some q) xs in
      let past : below q p ≡ true =
        last-All (λ r. below q r ≡ true) (take (suc n) ys) p
          (All-take (λ z. below q (place z) ≡ true) (suc n) ys (AllBelow-rows_below place q xs))
          e in
      sym (rows_below_twice place q p xs past)
      ∙ rows_below_last n ys p (Desc-rows_below place q xs d) e

  has_last : (n : ℕ) (x : A) (ys : List A) → last_place place (take (suc n) (x ∷ ys)) ≡ none → ⊥
  has_last zero x ys e = cc
  has_last (suc n) x [] e = cc
  has_last (suc n) x (y ∷ ys) e = has_last n y ys e

  has_some :
      (n : ℕ) (ys : List A)
      → ltb (suc n) (length ys) ≡ true
      → last_place place (take (suc n) ys) ≡ none
      → ⊥
  has_some n [] h e = ground arith
  has_some n (y ∷ ys) h e = has_last n y ys e

  module _ (rows : List A) where
    abbrev left : Option Place → List A
    left c = rows_below place c (newest_first place rows)

    more_page :
        (n : ℕ) (c : Option Place)
        → ltb (suc n) (length (left c)) ≡ true
        → fetch_page place (suc n) c rows ≡ record {
          items = take (suc n) (left c);
          next_cursor = last_place place (take (suc n) (left c));
          has_more = true;
        }
    unfolding fetch_page
    more_page n c h = rw (length-take (suc n) (left c), h, take-take (suc n) (left c)) refl

    last_page :
        (n : ℕ) (c : Option Place)
        → ltb (suc n) (length (left c)) ≡ false
        → fetch_page place (suc n) c rows
          ≡ record { items = left c; next_cursor = none; has_more = false }
    unfolding fetch_page
    last_page n c h =
        rw (length-take (suc n) (left c), h)
          (ap (λ (ys : List A). record { items = ys; next_cursor = none; has_more = false })
            (take_all (suc (suc n)) (left c) (ground arith)))

    follow-left :
        (fuel n : ℕ) (c : Option Place)
        → Desc place (newest_first place rows)
        → length (left c) < fuel
        → follow place fuel (suc n) c rows ≡ left c
    unfolding follow
    follow-left zero n c d h = absurd (omega (arith, h))
    follow-left (suc fuel) n c d h = elim (Bool-cases (ltb (suc n) (length (left c)))) [
      | inr b ↦ rw (last_page n c b) (append_nil (left c))
      | inl b ↦ elim (Option-cases (last_place place (take (suc n) (left c)))) [
        | inl e ↦ absurd (has_some n (left c) b e)
        | inr (p, e) ↦
            rw (more_page n c b, e)
              (let next = after_page n c (newest_first place rows) p d e in
                let fits : length (left (some p)) < fuel =
                  rw next (omega (arith, h, drops n (left c) b)) in
                rw (follow-left fuel n (some p) d fits, next) (take-drop (suc n) (left c)))
      ]
    ]

length-insert :
    {A : Type 0} (place : A → Place) (x : A) (ys : List A)
    → length (insert_desc place x ys) ≡ suc (length ys)
length-insert place x [] = refl
length-insert place x (y ∷ ys) = ground (arith, length-insert place x ys)

length-newest_first :
    {A : Type 0} (place : A → Place) (xs : List A) → length (newest_first place xs) ≡ length xs
length-newest_first place [] = refl
length-newest_first place (x ∷ xs) =
    length-insert place x (newest_first place xs) ∙ ap suc (length-newest_first place xs)

-- A client that starts without a cursor and follows the cursors gets, in at most one page more than
-- there are rows, exactly the list that the query gives without a limit: nothing is skipped or seen
-- twice, whatever the page size, if no two rows have the same time and key.
pub follow-newest_first :
    {A : Type 0} (place : A → Place) (rows : List A) (fuel n : ℕ)
    → DistinctPlaces place rows
    → length rows < fuel
    → follow place fuel (suc n) none rows ≡ newest_first place rows
follow-newest_first place rows fuel n d h =
    follow-left place rows fuel n none (newest_first-Desc place rows d)
      (rw (length-newest_first place rows) h)
