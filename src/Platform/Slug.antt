-- ===== src/Platform/Slug.antt =====
-- internal/platform/slug/slug.go. A text is a list of characters. `strings.ToLower` is a parameter.
use go_api_project_template.Prelude.{
  ℕ, zero, suc, ◌≡◌, ◌⊎◌, inl, inr, Bool, true, false, not, ◌&&◌, ◌||◌, List, [], ◌∷◌, leb, ◌==◌,
  ◌-◌, length, refl, Bool-cases, if◌then◌else◌, arith,
}

-- What `nonAlphanumeric` leaves.
abbrev pub slug_char : ℕ → Bool
slug_char c = leb b'a' c && leb c b'z' || (leb b'0' c && leb c b'9') || c == b'-'

abbrev dash_spaces : List ℕ → List ℕ
dash_spaces [] = []
dash_spaces (c ∷ s) = (if c == b' ' then b'-' else c) ∷ dash_spaces s

abbrev drop_others : List ℕ → List ℕ
drop_others [] = []
drop_others (c ∷ s) = let rest = drop_others s in if slug_char c then c ∷ rest else rest

-- One hyphen for each run of them; `after` says that a hyphen stands before.
abbrev collapse : Bool → List ℕ → List ℕ
collapse after [] = []
collapse after (c ∷ s) =
    let rest = collapse (c == b'-') s in if c == b'-' && after then rest else c ∷ rest

abbrev trim_left : List ℕ → List ℕ
trim_left [] = []
trim_left (c ∷ s) = let rest = trim_left s in if c == b'-' then rest else c ∷ s

abbrev is_empty : List ℕ → Bool
is_empty [] = true
is_empty (c ∷ s) = false

abbrev trim_right : List ℕ → List ℕ
trim_right [] = []
trim_right (c ∷ s) = let rest = trim_right s in if c == b'-' && is_empty rest then [] else c ∷ rest

unfoldable pub make : (List ℕ → List ℕ) → List ℕ → List ℕ
make lower s = trim_right (trim_left (collapse false (drop_others (dash_spaces (lower s)))))

unfoldable pub make_or_fallback : (List ℕ → List ℕ) → List ℕ → List ℕ → List ℕ
make_or_fallback lower name fallback =
    if is_empty (make lower name) then make lower fallback else make lower name

abbrev drop_first : ℕ → List ℕ → List ℕ
drop_first zero s = s
drop_first (suc n) [] = []
drop_first (suc n) (c ∷ s) = drop_first n s

-- The last eight characters of a key's text, which has 36.
abbrev pub seed : List ℕ → List ℕ
seed s = drop_first (length s - 8) s

-- Letters a to z, digits and single hyphens between them, from a place after a hyphen or not.
abbrev slug_from : Bool → List ℕ → Bool
slug_from after [] = not after
slug_from after (c ∷ s) =
    let rest = slug_from (c == b'-') s in slug_char c && not (c == b'-' && after) && rest

-- No hyphen at either end, either.
abbrev pub is_slug : List ℕ → Bool
is_slug [] = true
is_slug (c ∷ s) = slug_from true (c ∷ s)

-- The same but for a hyphen at the end.
abbrev open_slug : Bool → List ℕ → Bool
open_slug after [] = true
open_slug after (c ∷ s) =
    let rest = open_slug (c == b'-') s in slug_char c && not (c == b'-' && after) && rest

abbrev all_slug_chars : List ℕ → Bool
all_slug_chars [] = true
all_slug_chars (c ∷ s) = slug_char c && all_slug_chars s

drop_others-chars : (s : List ℕ) → all_slug_chars (drop_others s) ≡ true
drop_others-chars [] = refl
drop_others-chars (c ∷ s) = ground (arith, drop_others-chars s)

collapse-open_slug :
    (after : Bool) (s : List ℕ)
    → all_slug_chars s ≡ true
    → open_slug after (collapse after s) ≡ true
collapse-open_slug after [] h = refl
collapse-open_slug after (c ∷ s) h = ground (arith, collapse-open_slug (c == b'-') s)

after_other :
    (after : Bool) (c : ℕ) (s : List ℕ)
    → (c == b'-') ≡ false
    → open_slug after (c ∷ s) ≡ true
    → open_slug true (c ∷ s) ≡ true
after_other after c s other h = ground arith

trim_left-open_slug :
    (after : Bool) (s : List ℕ) → open_slug after s ≡ true → open_slug true (trim_left s) ≡ true
trim_left-open_slug after [] h = refl
trim_left-open_slug after (c ∷ s) h = elim (Bool-cases (c == b'-')) [
  | inl dash ↦ rw dash (trim_left-open_slug (c == b'-') s (ground arith))
  | inr other ↦ rw other (after_other after c s other h)
]

trim_right-slug_from :
    (after : Bool) (s : List ℕ)
    → open_slug after s ≡ true
    → (is_empty (trim_right s) ≡ true) ⊎ (slug_from after (trim_right s) ≡ true)
trim_right-slug_from after [] h = inl refl
trim_right-slug_from after (c ∷ s) h = ground (arith, trim_right-slug_from (c == b'-') s)

-- What is not empty and may follow a hyphen stands alone.
whole : (s : List ℕ) → (is_empty s ≡ true) ⊎ (slug_from true s ≡ true) → is_slug s ≡ true
whole [] h = refl
whole (c ∷ s) h = ground arith

-- A slug has only a to z, 0 to 9 and hyphens, no two hyphens side by side, and none at either end,
-- whatever the name.
pub make-is_slug : (lower : List ℕ → List ℕ) (name : List ℕ) → is_slug (make lower name) ≡ true
unfolding make
make-is_slug lower name =
    let kept = drop_others (dash_spaces (lower name)) in
    let single = collapse-open_slug false kept (drop_others-chars (dash_spaces (lower name))) in
    let trimmed = trim_left-open_slug false (collapse false kept) single in
    whole (trim_right (trim_left (collapse false kept)))
      (trim_right-slug_from true (trim_left (collapse false kept)) trimmed)
