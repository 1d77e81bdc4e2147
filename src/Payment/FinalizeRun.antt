-- ===== src/Payment/FinalizeRun.antt =====
-- What `FinalizeSuccess` of internal/features/payment/service.go does when no statement fails.
use go_api_project_template.Prelude.{ℕ, ◌+◌, ◌≡◌, true, false, some, find, exists, if◌then◌else◌}
use go_api_project_template.Errs.{Result}
use go_api_project_template.Money
use go_api_project_template.Database.{World}
use go_api_project_template.Inventory.Levels.{Quantities, deducting}
use go_api_project_template.Inventory.Counts.{one_row_each, all_served}
use go_api_project_template.Order.Domain.{to_paid}
use go_api_project_template.Order.Repository as OrderRows
use go_api_project_template.Order.Service as Orders
use go_api_project_template.Payment.Repository as Payments
use go_api_project_template.Payment.Finalize.{payable}
use go_api_project_template.Schema.{OrderRow, PaymentRow, Db, Env}
use go_api_project_template.Payment.FinalizeSteps.{deducted, verdict, marked}

-- No statement fails, and the payment and the order can be marked as paid, for the same amount.
pub record Payable (env : Env) (payment order : ℕ) (d : Db) : Type 0 where
  pub calm : (n : ℕ) → env.fault n ≡ false
  pub o : OrderRow
  pub p : PaymentRow
  pub order_found : find (OrderRows.has_id order) d.orders ≡ some o
  pub payment_found : find (Payments.has_id payment) d.payments ≡ some p
  pub same_amount :
      Money.equal (Payments.scan_payment p).amount (OrderRows.scan_order o).total ≡ true
  pub payment_open : exists (Payments.takes payment payable) d.payments ≡ true
  pub order_open : exists (OrderRows.takes order to_paid) d.orders ≡ true
  pub keyed : one_row_each d.levels ≡ true

abbrev pub Finalized : Quantities → Db → World Db → Result (Unit {0}) × World Db → Type 0
Finalized q d w x =
    (x.0 ≡ verdict q d)
    × (x.1.db ≡ (if all_served deducting d.levels q then deducted q d else w.db))

abbrev pub paid_db : Env → ℕ → ℕ → World Db → Db
paid_db env payment order w =
    marked (env.now (w.tick + 1 + 1)) (env.now (w.tick + 1 + 1 + 1)) payment order w.db
