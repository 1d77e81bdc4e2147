-- ===== src/Platform/PagingLaws.antt =====
-- internal/platform/paging and the listings by cursor: lists that are strictly newest first.
use go_api_project_template.Prelude.{
  ℕ, zero, suc, ◌≤◌, ◌≡◌, refl, ap, inl, inr, Bool, true, false, ◌&&◌, some, List, [], ◌∷◌, ◌++◌,
  length, All, ltb, ◌==◌, if_elim, Bool-cases, arith,
}
use go_api_project_template.Platform.Paging.{
  Place, below, take, insert_desc, newest_first, rows_below,
}

abbrev pub same_place : Place → Place → Bool
same_place p q = p.0 == q.0 && p.1 == q.1

below_trans : (p q r : Place) → below p q ≡ true → below q r ≡ true → below p r ≡ true
below_trans p q r h g = ground arith

pub below_asym : (p q : Place) → below p q ≡ true → below q p ≡ false
below_asym p q h = ground arith

pub below_irrefl : (p : Place) → below p p ≡ false
below_irrefl p = ground arith

below_total : (p q : Place) → same_place p q ≡ false → below p q ≡ false → below q p ≡ true
below_total p q n h = ground arith

abbrev pub drop : {A : Type 0} → ℕ → List A → List A
drop zero xs = xs
drop (suc n) [] = []
drop (suc n) (x ∷ xs) = drop n xs

pub take-drop : {A : Type 0} (n : ℕ) (xs : List A) → take n xs ++ drop n xs ≡ xs
take-drop zero xs = refl
take-drop (suc n) [] = refl
take-drop (suc n) (x ∷ xs) = ap (λ ys. x ∷ ys) (take-drop n xs)

pub take_all : {A : Type 0} (n : ℕ) (xs : List A) → length xs ≤ n → take n xs ≡ xs
take_all zero [] h = refl
take_all zero (x ∷ xs) h = absurd (omega (arith, h))
take_all (suc n) [] h = refl
take_all (suc n) (x ∷ xs) h = ap (λ ys. x ∷ ys) (take_all n xs (omega (arith, h)))

pub take-take : {A : Type 0} (n : ℕ) (xs : List A) → take n (take (suc n) xs) ≡ take n xs
take-take zero xs = refl
take-take (suc n) [] = refl
take-take (suc n) (x ∷ xs) = ap (λ ys. x ∷ ys) (take-take n xs)

pub length-take :
    {A : Type 0} (n : ℕ) (xs : List A) → ltb n (length (take (suc n) xs)) ≡ ltb n (length xs)
length-take zero [] = refl
length-take zero (x ∷ xs) = ground arith
length-take (suc n) [] = refl
length-take (suc n) (x ∷ xs) = ground (arith, length-take n xs)

pub length-drop : {A : Type 0} (n : ℕ) (xs : List A) → length (drop n xs) ≤ length xs
length-drop zero xs = omega arith
length-drop (suc n) [] = omega arith
length-drop (suc n) (x ∷ xs) = omega (arith, length-drop n xs)

module _ {A : Type 0} (place : A → Place) where
  abbrev pub AllBelow : Place → List A → Type 0
  AllBelow p = All (λ y. below p (place y) ≡ true)

  -- Strictly newest first.
  abbrev pub Desc : List A → Type 0
  Desc [] = Unit
  Desc (x ∷ xs) = AllBelow (place x) xs × Desc xs

  -- No two rows have the same time and key.
  abbrev pub DistinctPlaces : List A → Type 0
  DistinctPlaces [] = Unit
  DistinctPlaces (x ∷ xs) = All (λ y. same_place (place x) (place y) ≡ false) xs × DistinctPlaces xs

  All-insert :
      (Q : A → Type 0) (x : A) (ys : List A) → Q x → All Q ys → All Q (insert_desc place x ys)
  All-insert Q x [] q h = (q, tt)
  All-insert Q x (y ∷ ys) q h =
      if_elim (All Q) (below (place x) (place y)) _ _ (q, h) (h.0, All-insert Q x ys q h.1)

  All-newest_first : (Q : A → Type 0) (xs : List A) → All Q xs → All Q (newest_first place xs)
  All-newest_first Q [] h = tt
  All-newest_first Q (x ∷ xs) h =
      All-insert Q x (newest_first place xs) h.0 (All-newest_first Q xs h.1)

  AllBelow-trans : (p q : Place) (ys : List A) → below p q ≡ true → AllBelow q ys → AllBelow p ys
  AllBelow-trans p q [] h b = tt
  AllBelow-trans p q (y ∷ ys) h b = (below_trans p q (place y) h b.0, AllBelow-trans p q ys h b.1)

  insert-Desc :
      (x : A) (ys : List A)
      → All (λ y. same_place (place x) (place y) ≡ false) ys
      → Desc ys
      → Desc (insert_desc place x ys)
  insert-Desc x [] n d = (tt, tt)
  insert-Desc x (y ∷ ys) n d = elim (Bool-cases (below (place x) (place y))) [
    | inl b ↦ rw b ((b, AllBelow-trans (place x) (place y) ys b d.0), d)
    | inr b ↦ rw b (
      All-insert (λ z. below (place y) (place z) ≡ true) x ys
          (below_total (place x) (place y) n.0 b) d.0,
      insert-Desc x ys n.1 d.1,
    )
  ]

  pub newest_first-Desc : (xs : List A) → DistinctPlaces xs → Desc (newest_first place xs)
  newest_first-Desc [] h = tt
  newest_first-Desc (x ∷ xs) h =
      insert-Desc x (newest_first place xs) (All-newest_first _ xs h.0) (newest_first-Desc xs h.1)

  pub rows_below_all : (p : Place) (xs : List A) → AllBelow p xs → rows_below place (some p) xs ≡ xs
  rows_below_all p [] h = refl
  rows_below_all p (x ∷ xs) h = rw h.0 (ap (λ ys. x ∷ ys) (rows_below_all p xs h.1))

  pub AllBelow-rows_below : (p : Place) (xs : List A) → AllBelow p (rows_below place (some p) xs)
  AllBelow-rows_below p [] = tt
  AllBelow-rows_below p (x ∷ xs) = elim (Bool-cases (below p (place x))) [
    | inl b ↦ rw b (b, AllBelow-rows_below p xs)
    | inr b ↦ rw b (AllBelow-rows_below p xs)
  ]

  pub Desc-rows_below : (p : Place) (xs : List A) → Desc xs → Desc (rows_below place (some p) xs)
  Desc-rows_below p [] d = tt
  Desc-rows_below p (x ∷ xs) d = elim (Bool-cases (below p (place x))) [
    | inl b ↦
        rw b (
          All-rows_below (λ y. below (place x) (place y) ≡ true) p xs d.0,
          Desc-rows_below p xs d.1,
        )
    | inr b ↦ rw b (Desc-rows_below p xs d.1)
  ]
    where
      All-rows_below :
          (Q : A → Type 0) (p : Place) (xs : List A)
          → All Q xs
          → All Q (rows_below place (some p) xs)
      All-rows_below Q p [] h = tt
      All-rows_below Q p (x ∷ xs) h =
          if_elim (All Q) (below p (place x)) _ _ (h.0, All-rows_below Q p xs h.1)
            (All-rows_below Q p xs h.1)

  -- A later cursor looks only at what the earlier one has left.
  pub rows_below_twice :
      (p q : Place) (xs : List A)
      → below p q ≡ true
      → rows_below place (some q) (rows_below place (some p) xs) ≡ rows_below place (some q) xs
  rows_below_twice p q [] h = refl
  rows_below_twice p q (x ∷ xs) h =
      ground (arith, rows_below_twice p q xs h, below_trans p q (place x) h)
