-- ===== src/Money/Laws.antt =====
-- What the operations of money.go give.
use go_api_project_template.Prelude.{◌≡◌, ◌↔◌, true, arith, eq_iff}
use go_api_project_template.Prelude.Int.{eqb_ℤ→eq}
use go_api_project_template.Money.{Money, equal}

-- Two amounts are equal to `Equal` exactly when both fields agree.
pub equal_iff : (m n : Money) → (equal m n ≡ true) ↔ (m ≡ n)
unfolding equal
equal_iff m n = (
  λ h. ground (arith, eq_iff m.currency n.currency, eqb_ℤ→eq m.amount n.amount),
  λ h. ground (arith, eq_iff m.currency n.currency, h),
)
