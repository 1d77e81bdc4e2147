-- ===== src/Tests/StockExamples.antt =====
-- The theorems on stock, prices, carts and promotions at the small world.
use go_api_project_template.Prelude.{◌≡◌, refl, arith, true, [], ◌∷◌, if◌then◌else◌}
use go_api_project_template.Prelude.Int.{pos, ◌+ℤ◌, ◌≤ℤ◌}
use go_api_project_template.Errs.{Err, ok, err, is_ok}
use go_api_project_template.Order.Place.{price_cart, discounted}
use go_api_project_template.Order.Pricing.{
  price_cart-exact, discounted-balance, exact_sum, reservations,
}
use go_api_project_template.Inventory.Levels.{
  update_levels, reserving, deducting, releasing, restocking, find_level,
}
use go_api_project_template.Inventory.Laws.{held}
use go_api_project_template.Inventory.Rows.{
  Row, Reserved, Deducted, Released, Restocked, find_level-update_levels,
}
use go_api_project_template.Inventory.Batches.{
  batches_eq, written, all_enough, free, set_aside, InRange,
}
use go_api_project_template.Inventory.Conservation.{reserve-release-held, reserve-release-roundtrip}
use go_api_project_template.Inventory.Repository.{reserve, deduct, release_batch, restock_batch}
use go_api_project_template.Promotion.Domain.{compute_discount, validate_promotion}
use go_api_project_template.Promotion.Laws.{
  compute_discount-bound, compute_discount-within, within, validate_iff, valid,
}
use go_api_project_template.Promotion.Limit.{AllWithin, reserve-release-WithinLimit}
use go_api_project_template.Promotion.Service as Coupons
use go_api_project_template.Cart.Service as Cart
use go_api_project_template.Cart.Limit.{WithinLimit, add-WithinLimit}
use go_api_project_template.Tests.Sample.{
  calm, shelf, two_products, sale, tables, start, mug, draft_order,
}

in_range : InRange two_products shelf
unfolding update_levels
in_range = record {
  reserve_fits = refl;
  deduct_fits = refl;
  release_fits = refl;
  restock_fits = refl;
}

batches_eq_example :
    (reserve calm two_products start ≡ (
      if all_enough free shelf two_products then ok tt else err Err.insufficient_stock,
      written reserving two_products start,
    ))
    × (deduct calm two_products start ≡ (
      if all_enough set_aside shelf two_products then ok tt else err Err.bad_request,
      written deducting two_products start,
    ))
    × (release_batch calm two_products start ≡ (
      if all_enough set_aside shelf two_products then ok tt else err Err.bad_request,
      written releasing two_products start,
    ))
    × (restock_batch calm two_products start ≡ (ok tt, written restocking two_products start))
batches_eq_example =
    batches_eq calm (3, 4) ((4, 1) ∷ []) start
      (record { healthy = refl; first = refl; second = refl }) refl refl in_range

reserve-release-held_example :
    (held (reserve calm two_products start).1.db.levels ≡ held shelf)
    × (held (release_batch calm two_products start).1.db.levels ≡ held shelf)
reserve-release-held_example = reserve-release-held calm two_products start

reserve-release-roundtrip_example :
    find_level 3
      (update_levels releasing two_products (update_levels reserving two_products shelf).0).0
    ≡ find_level 3 shelf
reserve-release-roundtrip_example = reserve-release-roundtrip two_products shelf 3 refl

find_level-update_levels_example :
    Row Reserved two_products 3
      (find_level 3 shelf)
      (find_level 3 (update_levels reserving two_products shelf).0)
    × Row Deducted two_products 3
        (find_level 3 shelf)
        (find_level 3 (update_levels deducting two_products shelf).0)
    × Row Released two_products 3
        (find_level 3 shelf)
        (find_level 3 (update_levels releasing two_products shelf).0)
    × Row Restocked two_products 3
        (find_level 3 shelf)
        (find_level 3 (update_levels restocking two_products shelf).0)
find_level-update_levels_example = find_level-update_levels two_products 3 shelf

priced_mug :
    price_cart (mug ∷ [])
    ≡ ok (record {
      subtotal = record { amount = pos (exact_sum (mug ∷ [])); currency = "USD" };
      reservations = reservations [] (mug ∷ []);
    })
priced_mug = price_cart-exact mug [] ((refl, refl, refl), tt) (omega arith)

price_cart-exact_example :
    price_cart (mug ∷ [])
    ≡ ok (record {
      subtotal = record { amount = pos (exact_sum (mug ∷ [])); currency = "USD" };
      reservations = reservations [] (mug ∷ []);
    })
price_cart-exact_example = price_cart-exact mug [] ((refl, refl, refl), tt) (omega arith)

discounted-balance_example :
    ((discounted draft_order (pos 100)).total.amount
        +ℤ (discounted draft_order (pos 100)).discount.amount
      ≡ pos 500)
    × ((discounted draft_order (pos 100)).total.currency ≡ "USD")
discounted-balance_example =
    discounted-balance draft_order (pos 100) (omega arith, omega arith) refl (omega arith)

one_line : WithinLimit 3 tables
one_line c = ground arith

add-WithinLimit_example : WithinLimit 3 (Cart.add calm 7 3 1 start).1.db
add-WithinLimit_example = add-WithinLimit calm 7 3 1 start one_line

reserve-release-WithinLimit_example :
    AllWithin (Coupons.reserve calm "SALE" 7 1 (pos 500) start).1.db
    × AllWithin (Coupons.release calm 1 start).1.db
reserve-release-WithinLimit_example =
    reserve-release-WithinLimit calm "SALE" 7 1 (pos 500) start (refl, tt)

compute_discount-bound_example : compute_discount calm.percent sale (pos 500) ≤ℤ pos 500
compute_discount-bound_example = compute_discount-bound calm.percent sale (pos 500)

compute_discount-within_example :
    within sale.type sale.max_discount (compute_discount calm.percent sale (pos 500)) ≡ true
compute_discount-within_example = compute_discount-within calm.percent sale (pos 500)

validate_iff_example : is_ok (validate_promotion 1000 sale (pos 500)) ≡ valid 1000 sale (pos 500)
validate_iff_example = validate_iff 1000 sale (pos 500)
