-- ===== src/Promotion/Domain.antt =====
-- internal/features/promotion/domain/promotion.go. Amounts are int64 values, counts and times are
-- natural numbers. `math.Floor(float64(subtotal) * float64(value) / 100.0)` is a parameter: floating
-- point is not part of the model.
use go_api_project_template.Prelude.{
  ℕ, String, Bool, true, false, ◌&&◌, ◌||◌, not, Option, none, some, List, [], ◌∷◌, ltb, leb, ◌==◌,
  if◌then◌else◌,
}
use go_api_project_template.Prelude.Int.{ℤ, pos, ltb_ℤ}
use go_api_project_template.Errs.{Err, Result, ok, err}

pub data Kind : Type 0 where
  percentage fixed_amount : Kind

pub record Promotion : Type 0 where
  pub id : ℕ
  pub code : String
  pub type : Kind
  pub value : ℤ
  pub min_order_amount : ℤ
  pub max_discount : Option ℤ
  pub max_uses : Option ℕ
  pub used_count : ℕ
  pub starts_at : ℕ
  pub expires_at : ℕ
  pub active : Bool

pub record CouponUsage : Type 0 where
  pub id : ℕ
  pub coupon_id : ℕ
  pub user_id : ℕ
  pub order_id : ℕ
  pub discount : ℤ

-- One character of a coupon code: `A`-`Z`, `0`-`9`, `_` or `-`.
abbrev code_char : ℕ → Bool
code_char c = (leb b'A' c && leb c b'Z') || (leb b'0' c && leb c b'9') || c == b'_' || c == b'-'

abbrev code_chars : List ℕ → Bool
code_chars [] = true
code_chars (c ∷ cs) = code_char c && code_chars cs

-- `IsValidCode`, on the code points of the text.
unfoldable pub is_valid_code : List ℕ → Bool
is_valid_code [] = false
is_valid_code (c ∷ cs) = code_chars (c ∷ cs)

-- `ValidatePercentageValue`.
unfoldable pub validate_percentage_value : Kind → ℤ → Result (Unit {0})
validate_percentage_value Kind.percentage value =
    if ltb_ℤ (pos 100) value then err Err.bad_request else ok tt
validate_percentage_value Kind.fixed_amount value = ok tt

-- `promo.MaxUses != nil && promo.UsedCount >= *promo.MaxUses`.
abbrev pub used_up : Promotion → Option ℕ → Bool
used_up promo none = false
used_up promo (some n) = leb n promo.used_count

-- `ValidatePromotion`; `now` is what `time.Now()` gives.
unfoldable pub validate_promotion : ℕ → Promotion → ℤ → Result (Unit {0})
validate_promotion now promo order_amount =
    if not promo.active
    then err Err.bad_request
    else if ltb now promo.starts_at
    then err Err.bad_request
    else if ltb promo.expires_at now
    then err Err.bad_request
    else if used_up promo promo.max_uses
    then err Err.coupon_exhausted
    else if ltb_ℤ order_amount promo.min_order_amount
    then err Err.bad_request
    else ok tt

abbrev cap : Option ℤ → ℤ → ℤ
cap none d = d
cap (some m) d = if ltb_ℤ m d then m else d

abbrev raw_discount : (ℤ → ℤ → ℤ) → Promotion → Kind → ℤ → ℤ
raw_discount percent promo Kind.percentage subtotal =
    cap promo.max_discount (percent subtotal promo.value)
raw_discount percent promo Kind.fixed_amount subtotal = promo.value

-- `ComputeDiscount`; `percent subtotal value` is the floor of the percentage.
unfoldable pub compute_discount : (ℤ → ℤ → ℤ) → Promotion → ℤ → ℤ
compute_discount percent promo subtotal =
    let discount = raw_discount percent promo promo.type subtotal in
    if ltb_ℤ subtotal discount then subtotal else discount
