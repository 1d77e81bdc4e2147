-- ===== src/Inventory/Laws.antt =====
-- What the four batch updates of the inventory repository do to the stock of a product.
use go_api_project_template.Prelude.{
  ℕ, ◌+◌, ◌≡◌, refl, inl, inr, Option, none, some, List, [], ◌∷◌, ◌==◌, Bool-cases, arith,
}
use go_api_project_template.Inventory.Levels.{
  Level, Quantities, quantity_of, Change, touch, update_levels, reserving, deducting, releasing,
  restocking, find_level,
}

-- The stock that the rows hold in all, free or reserved.
unfoldable pub held : List Level → ℕ
held [] = 0
held (l ∷ ls) = l.available + l.reserved + held ls

touch-reserving :
    (l : Level) (q : Option ℕ)
    → (touch reserving l q).0.available + (touch reserving l q).0.reserved
      ≡ l.available + l.reserved
touch-reserving l none = refl
touch-reserving l (some n) = ground arith

touch-releasing :
    (l : Level) (q : Option ℕ)
    → (touch releasing l q).0.available + (touch releasing l q).0.reserved
      ≡ l.available + l.reserved
touch-releasing l none = refl
touch-releasing l (some n) = ground arith

pub reserving-held :
    (m : Quantities) (ls : List Level) → held (update_levels reserving m ls).0 ≡ held ls
unfolding held update_levels
reserving-held m [] = refl
reserving-held m (l ∷ ls) =
    let here = touch-reserving l (quantity_of l.product_id m) in
    let rest = reserving-held m ls in omega arith

pub releasing-held :
    (m : Quantities) (ls : List Level) → held (update_levels releasing m ls).0 ≡ held ls
unfolding held update_levels
releasing-held m [] = refl
releasing-held m (l ∷ ls) =
    let here = touch-releasing l (quantity_of l.product_id m) in
    let rest = releasing-held m ls in omega arith

-- The changes of the four batch updates.
pub data Batch : Change → Type 0 where
  batch_reserve : Batch reserving
  batch_deduct : Batch deducting
  batch_release : Batch releasing
  batch_restock : Batch restocking

pub touch-product :
    {c : Change} → Batch c → (l : Level) (q : Option ℕ) → (touch c l q).0.product_id ≡ l.product_id
touch-product b l none = refl
touch-product batch_reserve l (some n) = ground arith
touch-product batch_deduct l (some n) = ground arith
touch-product batch_release l (some n) = ground arith
touch-product batch_restock l (some n) = refl

-- What the update makes of the one row of a product.
abbrev pub touched : Change → Quantities → Option Level → Option Level
touched c m none = none
touched c m (some l) = some (touch c l (quantity_of l.product_id m)).0

pub find_level-update :
    {c : Change}
    → Batch c
    → (m : Quantities) (p : ℕ) (ls : List Level)
    → find_level p (update_levels c m ls).0 ≡ touched c m (find_level p ls)
unfolding update_levels
find_level-update b m p [] = refl
find_level-update {c} b m p (l ∷ ls) = elim (Bool-cases (l.product_id == p)) [
  | inl e ↦ rw (touch-product b l (quantity_of l.product_id m), e) refl
  | inr e ↦ rw (touch-product b l (quantity_of l.product_id m), e) (find_level-update b m p ls)
]
