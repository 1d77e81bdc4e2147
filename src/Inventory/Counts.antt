-- ===== src/Inventory/Counts.antt =====
-- The number of rows that a batch update writes, which the repository compares with the number of
-- products: when each product has one row and one entry, it counts the products that were served.
use go_api_project_template.Prelude.{
  ℕ, ◌+◌, ◌≡◌, ◌≤◌, refl, sym, inl, inr, Bool, true, false, not, ◌&&◌, Option, none, some, List, [],
  ◌∷◌, ◌==◌, Bool-cases, arith, length, ==→eq,
}
use go_api_project_template.Inventory.Levels.{
  Level, Quantities, quantity_of, Change, touch, update_levels, find_level,
}

abbrev no_level : ℕ → List Level → Bool
no_level p [] = true
no_level p (l ∷ ls) = not (l.product_id == p) && no_level p ls

-- `product_id` is the primary key of inventory_levels.
abbrev pub one_row_each : List Level → Bool
one_row_each [] = true
one_row_each (l ∷ ls) = no_level l.product_id ls && one_row_each ls

abbrev pub no_entry : ℕ → Quantities → Bool
no_entry p [] = true
no_entry p ((q, n) ∷ m) = not (q == p) && no_entry p m

-- The keys of a map are distinct.
abbrev pub one_entry_each : Quantities → Bool
one_entry_each [] = true
one_entry_each ((q, n) ∷ m) = no_entry q m && one_entry_each m

-- Whether the stock of a product allows the change for a quantity.
abbrev pub serves : Change → ℕ → Option Level → Bool
serves c n none = false
serves c n (some l) = c.guard l n

-- Whether it does for every product of the map.
abbrev pub all_served : Change → List Level → Quantities → Bool
all_served c ls [] = true
all_served c ls ((p, n) ∷ m) = serves c n (find_level p ls) && all_served c ls m

abbrev one : Bool → ℕ
one true = 1
one false = 0

served : Change → List Level → Quantities → ℕ
served c ls [] = 0
served c ls ((p, n) ∷ m) = one (serves c n (find_level p ls)) + served c ls m

no_level-find : (p : ℕ) (ls : List Level) → no_level p ls ≡ true → find_level p ls ≡ none
no_level-find p [] h = refl
no_level-find p (l ∷ ls) h = ground (arith, no_level-find p ls)

-- A row whose product has no entry serves nothing.
served_other :
    (c : Change) (l : Level) (ls : List Level) (m : Quantities)
    → no_entry l.product_id m ≡ true
    → served c (l ∷ ls) m ≡ served c ls m
unfolding served
served_other c l ls [] h = refl
served_other c l ls ((p, n) ∷ m) h = let rest = served_other c l ls m in ground (arith, rest)

no_entry-quantity_of : (p : ℕ) (m : Quantities) → no_entry p m ≡ true → quantity_of p m ≡ none
no_entry-quantity_of p [] h = refl
no_entry-quantity_of p ((q, n) ∷ m) h = ground (arith, no_entry-quantity_of p m)

served_none : (c : Change) (m : Quantities) → served c [] m ≡ 0
unfolding served
served_none c [] = refl
served_none c ((p, n) ∷ m) = let rest = served_none c m in omega arith

served_here :
    (c : Change) (l : Level) (ls : List Level) (p n : ℕ) (m : Quantities)
    → p ≡ l.product_id
    → no_level l.product_id ls ≡ true
    → one_entry_each ((p, n) ∷ m) ≡ true
    → served c (l ∷ ls) ((p, n) ∷ m)
      ≡ (touch c l (quantity_of l.product_id ((p, n) ∷ m))).1 + served c ls ((p, n) ∷ m)
unfolding served
served_here c l ls p n m e h d =
    let absent : find_level p ls ≡ none = rw e (no_level-find l.product_id ls h) in
    let others = served_other c l ls m in ground (arith, absent, others)

served_cons :
    (c : Change) (l : Level) (ls : List Level) (m : Quantities)
    → no_level l.product_id ls ≡ true
    → one_entry_each m ≡ true
    → served c (l ∷ ls) m ≡ (touch c l (quantity_of l.product_id m)).1 + served c ls m
unfolding served
served_cons c l ls [] h d = refl
served_cons c l ls ((p, n) ∷ m) h d = elim (Bool-cases (p == l.product_id)) [
  | inl e ↦ served_here c l ls p n m (==→eq p l.product_id e) h d
  | inr e ↦ let rest = served_cons c l ls m h in ground (arith, rest)
]

-- The count of a batch update.
update_levels-served :
    (c : Change) (m : Quantities) (ls : List Level)
    → one_row_each ls ≡ true
    → one_entry_each m ≡ true
    → (update_levels c m ls).1 ≡ served c ls m
unfolding update_levels
update_levels-served c m [] k d = sym (served_none c m)
update_levels-served c m (l ∷ ls) k d =
    let here = served_cons c l ls m in
    let rest = update_levels-served c m ls in ground (arith, here, rest)

served_bound : (c : Change) (ls : List Level) (m : Quantities) → served c ls m ≤ length m
unfolding served
served_bound c ls [] = omega arith
served_bound c ls ((p, n) ∷ m) = let rest = served_bound c ls m in ground (arith, rest)

served-length :
    (c : Change) (ls : List Level) (m : Quantities)
    → (served c ls m == length m) ≡ all_served c ls m
unfolding served
served-length c ls [] = refl
served-length c ls ((p, n) ∷ m) =
    let rest = served-length c ls m in
    let bound = served_bound c ls m in ground (arith, rest, bound)

-- The test of a batch operation on the number of rows tells whether every product was served.
pub update_levels-all_served :
    (c : Change) (m : Quantities) (ls : List Level)
    → one_row_each ls ≡ true
    → one_entry_each m ≡ true
    → ((update_levels c m ls).1 == length m) ≡ all_served c ls m
update_levels-all_served c m ls k d = rw (update_levels-served c m ls k d, served-length c ls m)
