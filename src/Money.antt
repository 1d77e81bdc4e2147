-- ===== src/Money.antt =====
-- internal/money/money.go. An amount is an int64 of minor units: an integer whose sums and
-- products wrap around at 64 bits. A quantity is a count.
pub mod Laws
use go_api_project_template.Prelude.{ℕ, String, Bool, ◌&&◌, str_eq, if◌then◌else◌}
use go_api_project_template.Prelude.Int.{ℤ, pos, ◌+ℤ◌, ◌*ℤ◌, wrap64, eqb_ℤ}
use go_api_project_template.Errs.{Err, Result, ok, err}

pub record Money : Type 0 where
  pub amount : ℤ
  pub currency : String

unfoldable pub new : ℤ → String → Money
new amount currency = record { amount = amount; currency = currency }

unfoldable pub add : Money → Money → Result Money
unfolding new
add m other =
    if str_eq m.currency other.currency
    then ok (new (wrap64 (m.amount +ℤ other.amount)) m.currency)
    else err Err.currency_mismatch

unfoldable pub mul_qty : Money → ℕ → Money
unfolding new
mul_qty m qty = new (wrap64 (m.amount *ℤ pos qty)) m.currency

unfoldable pub equal : Money → Money → Bool
equal m other = eqb_ℤ m.amount other.amount && str_eq m.currency other.currency

unfoldable pub is_zero : Money → Bool
is_zero m = eqb_ℤ m.amount (pos 0)
