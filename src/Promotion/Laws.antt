-- ===== src/Promotion/Laws.antt =====
-- What promotion.go promises of a discount and of a check, and what the statements of the
-- repository keep of the counts of uses.
use go_api_project_template.Prelude.{
  ℕ, ◌≡◌, refl, Bool, true, not, ◌&&◌, Option, none, some, leb, ltb, arith,
}
use go_api_project_template.Prelude.Int.{ℤ, ltb_ℤ, ◌≤ℤ◌}
use go_api_project_template.Errs.{is_ok}
use go_api_project_template.Promotion.Domain.{
  Kind, Promotion, used_up, validate_promotion, compute_discount,
}
use go_api_project_template.Promotion.Repository.{usable, use_once, give_back}

-- A discount is at most the subtotal, whatever the percentage gives.
pub compute_discount-bound :
    (percent : ℤ → ℤ → ℤ) (p : Promotion) (subtotal : ℤ)
    → compute_discount percent p subtotal ≤ℤ subtotal
unfolding compute_discount
compute_discount-bound percent p subtotal = ground arith

-- A limit on the discount of a percentage.
abbrev pub within : Kind → Option ℤ → ℤ → Bool
within Kind.percentage (some m) d = not (ltb_ℤ m d)
within k o d = true

-- The discount of a percentage promotion with a maximum is at most that maximum, whatever the
-- percentage gives.
pub compute_discount-within :
    (percent : ℤ → ℤ → ℤ) (p : Promotion) (subtotal : ℤ)
    → within p.type p.max_discount (compute_discount percent p subtotal) ≡ true
unfolding compute_discount
compute_discount-within percent p subtotal = ground arith

-- A count of uses below the limit, where there is one.
abbrev uses_left : ℕ → Option ℕ → Bool
uses_left used none = true
uses_left used (some most) = ltb used most

used_up-uses_left :
    (p : Promotion) (most : Option ℕ) → used_up p most ≡ not (uses_left p.used_count most)
used_up-uses_left p none = refl
used_up-uses_left p (some m) = ground arith

-- The conditions under which a promotion can be used, at a time and for an amount.
abbrev pub valid : ℕ → Promotion → ℤ → Bool
valid now p amount =
    p.active
    && leb p.starts_at now
    && leb now p.expires_at
    && uses_left p.used_count p.max_uses
    && not (ltb_ℤ amount p.min_order_amount)

-- `ValidatePromotion` accepts a promotion at a time and for an amount exactly if it is active, the
-- time lies between its start and its end, it has no limit of uses or has been used less often than that, and the amount reaches its minimum.
pub validate_iff :
    (now : ℕ) (p : Promotion) (amount : ℤ)
    → is_ok (validate_promotion now p amount) ≡ valid now p amount
unfolding validate_promotion
validate_iff now p amount = let uses = used_up-uses_left p p.max_uses in ground (arith, uses)

validate-usable :
    (now : ℕ) (p : Promotion) (amount : ℤ)
    → is_ok (validate_promotion now p amount) ≡ true
    → usable now p.id p ≡ true
unfolding validate_promotion
validate-usable now p amount h = ground arith

-- No promotion is used more often than its limit allows.
abbrev pub at_most : ℕ → Option ℕ → Bool
at_most n none = true
at_most n (some m) = leb n m

abbrev pub WithinLimit : Promotion → Type 0
WithinLimit p = at_most p.used_count p.max_uses ≡ true

pub use_once-WithinLimit :
    (now id : ℕ) (p : Promotion) → WithinLimit p → WithinLimit (use_once now id p)
use_once-WithinLimit now id p h = ground arith

pub give_back-WithinLimit : (id : ℕ) (p : Promotion) → WithinLimit p → WithinLimit (give_back id p)
give_back-WithinLimit id p h = ground arith
