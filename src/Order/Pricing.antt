-- ===== src/Order/Pricing.antt =====
-- What the loop of `Place` over the cart computes, in internal/features/order/service.go.
use go_api_project_template.Prelude.{
  ℕ, ◌+◌, ◌*◌, ◌<◌, ◌≡◌, refl, sym, ap, ◌∙◌, String, true, false, List, [], ◌∷◌, str_eq, arith,
  ◌==◌, eq_iff, All,
}
use go_api_project_template.Prelude.Int.{
  ℤ, pos, negsuc, wrap64, wrap64_id, ◌+ℤ◌, ◌-ℤ◌, ◌*ℤ◌, ◌≤ℤ◌, ltb_ℤ, half64, +ℤ_parts, -ℤ_parts,
  eq_of_parts, InInt64, pos_part, neg_part,
}
use go_api_project_template.Errs.{ok}
use go_api_project_template.Money
use go_api_project_template.Money.{Money}
use go_api_project_template.Inventory.Levels.{Quantities, set_quantity}
use go_api_project_template.Inventory.Counts.{one_entry_each, no_entry}
use go_api_project_template.Cart.Domain.{SnapshotItem}
use go_api_project_template.Order.Domain.{Order}
use go_api_project_template.Order.Place.{
  price_item, price_from, price_cart, discounted, at_least_zero,
}

-- A published item with a price in the currency that is not negative.
abbrev pub Sold : String → SnapshotItem → Type 0
Sold c i =
    (str_eq i.status "published" ≡ true) × (i.price.currency ≡ c) × (neg_part i.price.amount ≡ 0)

-- The exact price of a line, in minor units.
abbrev pub line : SnapshotItem → ℕ
line i = pos_part i.price.amount * i.quantity

abbrev pub exact_sum : List SnapshotItem → ℕ
exact_sum [] = 0
exact_sum (i ∷ is) = line i + exact_sum is

-- What the loop collects for the reservation.
abbrev pub reservations : Quantities → List SnapshotItem → Quantities
reservations m [] = m
reservations m (i ∷ is) = reservations (set_quantity i.product_id i.quantity m) is

product_units : (n q : ℕ) → pos n *ℤ pos q ≡ pos (n * q)
unfolding ◌*ℤ◌
product_units n q =
    let x : n * 0 ≡ 0 = omega arith in let y : 0 * q ≡ 0 = omega arith in ground (arith, x, y)

mul_units :
    (a : ℤ) (q : ℕ)
    → neg_part a ≡ 0
    → pos_part a * q < half64
    → wrap64 (a *ℤ pos q) ≡ pos (pos_part a * q)
mul_units (pos n) q h b = rw (product_units n q) (wrap64_id (pos (n * q)) (b, omega arith))
mul_units (negsuc n) q h b = ground arith

add_units : (a b : ℕ) → a + b < half64 → wrap64 (pos a +ℤ pos b) ≡ pos (a + b)
unfolding ◌+ℤ◌ wrap64
add_units a b h = ground arith

same_text : (c d : String) → c ≡ d → str_eq c d ≡ true
same_text c d h = (eq_iff c d).1 h

price_item-Sold :
    (c : String) (a : ℕ) (m : Quantities) (i : SnapshotItem)
    → Sold c i
    → a + line i < half64
    → price_item (record { subtotal = record { amount = pos a; currency = c }; reservations = m }) i
      ≡ ok (record {
        subtotal = record { amount = pos (a + line i); currency = c };
        reservations = set_quantity i.product_id i.quantity m;
      })
unfolding price_item Money.add Money.mul_qty Money.new
price_item-Sold c a m i (pub_ok, same, nonneg) b =
    let product = mul_units i.price.amount i.quantity nonneg (omega arith) in
    rw (pub_ok, product, add_units a (line i) b, same_text c i.price.currency (sym same)) refl

add_assoc : (a b c : ℕ) → a + (b + c) ≡ a + b + c
add_assoc a b c = omega arith

price_from-Sold :
    (c : String) (a : ℕ) (m : Quantities) (is : List SnapshotItem)
    → All (Sold c) is
    → a + exact_sum is < half64
    → price_from
        (record { subtotal = record { amount = pos a; currency = c }; reservations = m })
        is
      ≡ ok (record {
        subtotal = record { amount = pos (a + exact_sum is); currency = c };
        reservations = reservations m is;
      })
unfolding price_from
price_from-Sold c a m [] h b =
    ap (λ n. ok (record { subtotal = record { amount = pos n; currency = c }; reservations = m }))
      (omega arith)
price_from-Sold c a m (i ∷ is) h b =
    rw (price_from, price_item-Sold c a m i h.0 (omega arith), add_assoc a (line i) (exact_sum is))
      (price_from-Sold c (a + line i) (set_quantity i.product_id i.quantity m) is h.1 (omega arith))

-- Where every line of the cart is published, priced in one currency and not negative, and the exact
-- sum of prices times quantities is below 2^63, `Place` prices the cart at exactly that sum, and
-- collects the quantities of the lines for the reservation.
pub price_cart-exact :
    (i : SnapshotItem) (is : List SnapshotItem)
    → All (Sold i.price.currency) (i ∷ is)
    → exact_sum (i ∷ is) < half64
    → price_cart (i ∷ is)
      ≡ ok (record {
        subtotal = record { amount = pos (exact_sum (i ∷ is)); currency = i.price.currency };
        reservations = reservations [] (i ∷ is);
      })
unfolding price_cart Money.new
price_cart-exact i is h b =
    price_from-Sold i.price.currency 0 [] (i ∷ is) h (omega arith)
    ∙ ap
        (λ n. ok (record {
          subtotal = record { amount = pos n; currency = i.price.currency };
          reservations = reservations [] (i ∷ is);
        }))
        (omega arith)

set_quantity-no_entry :
    (p q n : ℕ) (m : Quantities)
    → (p == q) ≡ false
    → no_entry q m ≡ true
    → no_entry q (set_quantity p n m) ≡ true
set_quantity-no_entry p q n [] d h = ground arith
set_quantity-no_entry p q n ((r, k) ∷ m) d h =
    let rest = set_quantity-no_entry p q n m d in ground (arith, rest)

pub set_quantity-one_entry_each :
    (p n : ℕ) (m : Quantities)
    → one_entry_each m ≡ true
    → one_entry_each (set_quantity p n m) ≡ true
set_quantity-one_entry_each p n [] h = refl
set_quantity-one_entry_each p n ((q, k) ∷ m) h =
    let rest = set_quantity-one_entry_each p n m in
    let apart = set_quantity-no_entry p q n m in ground (arith, rest, apart)

difference_range : (s d : ℤ) → InInt64 s → ltb_ℤ d (pos 0) ≡ false → d ≤ℤ s → InInt64 (s -ℤ d)
unfolding ◌-ℤ◌
difference_range s d r n b = ground arith

difference_sign : (s d : ℤ) → d ≤ℤ s → ltb_ℤ (s -ℤ d) (pos 0) ≡ false
unfolding ◌-ℤ◌
difference_sign s d b = ground arith

kept : (a : ℤ) → ltb_ℤ a (pos 0) ≡ false → at_least_zero a ≡ a
kept a h = rw h refl

minus_back : (s d : ℤ) → (s -ℤ d) +ℤ d ≡ s
minus_back s d =
    let sum = +ℤ_parts (s -ℤ d) d in let difference = -ℤ_parts s d in eq_of_parts _ _ (omega arith)

-- A coupon's discount d with 0 <= d <= subtotal is taken off exactly: the order's total and discount
-- then add up to its subtotal, in the subtotal's currency.
pub discounted-balance :
    (o : Order) (d : ℤ)
    → InInt64 o.subtotal.amount
    → ltb_ℤ d (pos 0) ≡ false
    → d ≤ℤ o.subtotal.amount
    → ((discounted o d).total.amount +ℤ (discounted o d).discount.amount ≡ o.subtotal.amount)
      × ((discounted o d).total.currency ≡ o.subtotal.currency)
unfolding discounted Money.new
discounted-balance o d r n b =
    let s = o.subtotal.amount in
    let e = wrap64_id (s -ℤ d) (difference_range s d r n b) in
    (rw (e, kept (s -ℤ d) (difference_sign s d b)) (minus_back s d), refl)
