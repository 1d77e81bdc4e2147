-- ===== src/Inventory/Levels.antt =====
-- The rows of `inventory_levels` and what the UPDATE statements of
-- internal/features/inventory/adapter/postgres/repository.go do to them. Stock counts are natural
-- numbers: both columns have a CHECK that they are not negative, and quantities come from
-- `order_items` and `cart_items` (CHECK quantity > 0) and from requests with a minimum.
use go_api_project_template.Prelude.{
  ℕ, ◌+◌, ◌-◌, Bool, true, ◌&&◌, Option, none, some, List, [], ◌∷◌, leb, ◌==◌, find, if◌then◌else◌,
}

pub record Level : Type 0 where
  pub product_id : ℕ
  pub available : ℕ
  pub reserved : ℕ

-- A `map[uuid.UUID]int` of quantities: each product stands once.
abbrev pub Quantities : Type 0
Quantities = List (ℕ × ℕ)

abbrev pub quantity_of : ℕ → Quantities → Option ℕ
quantity_of p [] = none
quantity_of p ((q, n) ∷ m) = if q == p then some n else quantity_of p m

-- `m[p] = n`.
abbrev pub set_quantity : ℕ → ℕ → Quantities → Quantities
set_quantity p n [] = (p, n) ∷ []
set_quantity p n ((q, k) ∷ m) = if q == p then (p, n) ∷ m else (q, k) ∷ set_quantity p n m

-- The largest value of an INT column; an update past it fails.
abbrev pub int_max : ℕ
int_max = 2147483647

abbrev pub fits : List Level → Bool
fits [] = true
fits (l ∷ ls) = leb l.available int_max && leb l.reserved int_max && fits ls

-- One of the four batch updates: which rows its WHERE takes, and what it sets.
pub record Change : Type 0 where
  pub guard : Level → ℕ → Bool
  pub write : Level → ℕ → Level

-- One row under a change, for the quantity that the VALUES list has for its product.
abbrev pub touch : Change → Level → Option ℕ → Level × ℕ
touch c l none = (l, 0)
touch c l (some n) = if c.guard l n then (c.write l n, 1) else (l, 0)

-- `UPDATE ... FROM (VALUES ...)`: the new rows and the number of rows affected.
unfoldable pub update_levels : Change → Quantities → List Level → List Level × ℕ
update_levels c m [] = ([], 0)
update_levels c m (l ∷ ls) =
    let (l', k) = touch c l (quantity_of l.product_id m) in
    let (ls', n) = update_levels c m ls in (l' ∷ ls', k + n)

abbrev pub reserving : Change
reserving = record {
  guard = λ l n. leb n l.available;
  write = λ l n. record l { available = l.available - n; reserved = l.reserved + n };
}

abbrev pub deducting : Change
deducting = record {
  guard = λ l n. leb n l.reserved;
  write = λ l n. record l { reserved = l.reserved - n };
}

abbrev pub releasing : Change
releasing = record {
  guard = λ l n. leb n l.reserved;
  write = λ l n. record l { available = l.available + n; reserved = l.reserved - n };
}

abbrev pub restocking : Change
restocking = record { guard = λ l n. true; write = λ l n. record l { available = l.available + n } }

-- `SELECT ... WHERE product_id = $1`.
abbrev pub find_level : ℕ → List Level → Option Level
find_level p = find (λ l. l.product_id == p)
