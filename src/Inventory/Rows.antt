-- ===== src/Inventory/Rows.antt =====
-- The row of a product after each of the four batch updates of the inventory repository, in numbers.
use go_api_project_template.Prelude.{
  ℕ, ◌+◌, ◌≤◌, ◌<◌, ◌≡◌, refl, subst, sym, ◌⊎◌, inl, inr, Option, none, some, List, Bool-cases, leb,
  arith,
}
use go_api_project_template.Inventory.Levels.{
  Level, Quantities, quantity_of, Change, touch, update_levels, reserving, deducting, releasing,
  restocking, find_level,
}
use go_api_project_template.Inventory.Laws.{
  Batch, batch_reserve, batch_deduct, batch_release, batch_restock, touched, touch-product,
  find_level-update,
}

-- What becomes of a row for a quantity: the quantity is there and moves, or the row stays as it was.
abbrev pub Reserved : ℕ → Level → Level → Type 0
Reserved n l k =
    (n ≤ l.available) × (k.available + n ≡ l.available) × (k.reserved ≡ l.reserved + n)
    ⊎ (l.available < n) × (k ≡ l)

abbrev pub Deducted : ℕ → Level → Level → Type 0
Deducted n l k =
    (n ≤ l.reserved) × (k.available ≡ l.available) × (k.reserved + n ≡ l.reserved)
    ⊎ (l.reserved < n) × (k ≡ l)

abbrev pub Released : ℕ → Level → Level → Type 0
Released n l k =
    (n ≤ l.reserved) × (k.available ≡ l.available + n) × (k.reserved + n ≡ l.reserved)
    ⊎ (l.reserved < n) × (k ≡ l)

abbrev pub Restocked : ℕ → Level → Level → Type 0
Restocked n l k = (k.available ≡ l.available + n) × (k.reserved ≡ l.reserved)

-- A product without an entry keeps its row.
abbrev ByEntry : (ℕ → Level → Level → Type 0) → Option ℕ → Level → Level → Type 0
ByEntry R none l k = k ≡ l
ByEntry R (some n) l k = R n l k

-- The row of a product before and after, if it has one.
abbrev pub Row :
    (ℕ → Level → Level → Type 0) → Quantities → ℕ → Option Level → Option Level → Type 0
Row R m p none none = Unit
Row R m p none (some k) = ⊥
Row R m p (some l) none = ⊥
Row R m p (some l) (some k) =
    (k.product_id ≡ l.product_id) × ByEntry R (quantity_of l.product_id m) l k

touch-Reserved : (l : Level) (n : ℕ) → Reserved n l (touch reserving l (some n)).0
touch-Reserved l n = elim (Bool-cases (leb n l.available)) [
  | inl h ↦ rw h (inl (ground arith, ground arith, refl))
  | inr h ↦ rw h (inr (ground arith, refl))
]

touch-Deducted : (l : Level) (n : ℕ) → Deducted n l (touch deducting l (some n)).0
touch-Deducted l n = elim (Bool-cases (leb n l.reserved)) [
  | inl h ↦ rw h (inl (ground arith, refl, ground arith))
  | inr h ↦ rw h (inr (ground arith, refl))
]

touch-Released : (l : Level) (n : ℕ) → Released n l (touch releasing l (some n)).0
touch-Released l n = elim (Bool-cases (leb n l.reserved)) [
  | inl h ↦ rw h (inl (ground arith, refl, ground arith))
  | inr h ↦ rw h (inr (ground arith, refl))
]

module _ {c : Change} (R : ℕ → Level → Level → Type 0) (b : Batch c)
    (moves : (l : Level) (n : ℕ) → R n l (touch c l (some n)).0) (m : Quantities) where
  touch-ByEntry : (l : Level) (q : Option ℕ) → ByEntry R q l (touch c l q).0
  touch-ByEntry l none = refl
  touch-ByEntry l (some n) = moves l n

  touched-Row : (p : ℕ) (o : Option Level) → Row R m p o (touched c m o)
  touched-Row p none = tt
  touched-Row p (some l) =
      (touch-product b l (quantity_of l.product_id m), touch-ByEntry l (quantity_of l.product_id m))

  update-Row :
      (p : ℕ) (ls : List Level)
      → Row R m p (find_level p ls) (find_level p (update_levels c m ls).0)
  update-Row p ls =
      subst (Row R m p (find_level p ls)) (sym (find_level-update b m p ls))
        (touched-Row p (find_level p ls))

-- After a batch update a product has a row exactly if it had one. Without an entry in the map the row
-- is as it was. With an entry of n: `Reserve` takes n from the free stock and adds it to the reserved
-- one if n is free, `Deduct` takes n from the reserved stock and `ReleaseBatch` moves it back to the
-- free one if n is reserved, and the row stays as it was otherwise; `RestockBatch` adds n to the free
-- stock.
pub find_level-update_levels :
    (m : Quantities) (p : ℕ) (ls : List Level)
    → Row Reserved m p (find_level p ls) (find_level p (update_levels reserving m ls).0)
      × Row Deducted m p (find_level p ls) (find_level p (update_levels deducting m ls).0)
      × Row Released m p (find_level p ls) (find_level p (update_levels releasing m ls).0)
      × Row Restocked m p (find_level p ls) (find_level p (update_levels restocking m ls).0)
find_level-update_levels m p ls = (
  update-Row Reserved batch_reserve touch-Reserved m p ls,
  update-Row Deducted batch_deduct touch-Deducted m p ls,
  update-Row Released batch_release touch-Released m p ls,
  update-Row Restocked batch_restock (λ l n. (refl, refl)) m p ls,
)
