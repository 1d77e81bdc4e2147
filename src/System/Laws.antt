-- ===== src/System/Laws.antt =====
-- What an invariant of the orders and the payments has to satisfy: one law for each statement that
-- writes one of the two tables.
use go_api_project_template.Prelude.{ℕ, ◌≡◌, List, [], ◌∷◌, ◌++◌, map}
use go_api_project_template.Prelude.Int.{ℤ}
use go_api_project_template.Order.Domain.{Status, Order, Transition, Known}
use go_api_project_template.Order.Repository as Orders
use go_api_project_template.Payment.Domain.{PaymentStatus, Payment}
use go_api_project_template.Payment.Repository as Payments
use go_api_project_template.Payment.Finalize.{payable}
use go_api_project_template.Payment.Refund.{refundable}
use go_api_project_template.Schema.{OrderRow, PaymentRow, Db}

-- The status updates of payments that the service makes.
pub data StatusChange : PaymentStatus → List PaymentStatus → Type 0 where
  review_late : StatusChange PaymentStatus.requires_review (PaymentStatus.success ∷ [])
  review_compensating :
      StatusChange PaymentStatus.requires_review
        (PaymentStatus.pending ∷ PaymentStatus.processing ∷ PaymentStatus.success ∷ [])
  cancel_failed :
      StatusChange PaymentStatus.cancelled (PaymentStatus.pending ∷ PaymentStatus.processing ∷ [])
  refund_settled : StatusChange PaymentStatus.refunded refundable

pub record Laws (Q : List OrderRow → List PaymentRow → Type 0) : Type 0 where
  pub apply :
      {t : Transition}
      → Known t
      → (at id : ℕ) (os : List OrderRow) (ps : List PaymentRow) → Q os ps
      → Q (Orders.apply_rows at id t os).0 ps
  pub totals :
      (at id : ℕ) (discount total : ℤ) (os : List OrderRow) (ps : List PaymentRow)
      → Q os ps
      → Q (map (Orders.set_totals at id discount total) os) ps
  pub insert :
      (id at : ℕ) (o : Order) (os : List OrderRow) (ps : List PaymentRow)
      → o.status ≡ Status.awaiting_payment
      → Q os ps
      → Q (os ++ Orders.new_row id at o ∷ []) ps
  pub open_payment :
      (id at : ℕ) (p : Payment) (os : List OrderRow) (ps : List PaymentRow)
      → p.status ≡ PaymentStatus.pending
      → Q os ps
      → Q os (ps ++ Payments.new_row id at p ∷ [])
  pub change :
      {to : PaymentStatus} {from : List PaymentStatus}
      → StatusChange to from
      → (id : ℕ) (os : List OrderRow) (ps : List PaymentRow) → Q os ps
      → Q os (Payments.rewrite (Payments.takes id from) (Payments.with_status to) ps)
  pub paid :
      (at id : ℕ) (os : List OrderRow) (ps : List PaymentRow)
      → Q os ps
      → Q os (Payments.rewrite (Payments.takes id payable) (Payments.as_paid at) ps)
  pub details :
      (id : ℕ) (f : PaymentRow → PaymentRow)
      → ((r : PaymentRow) → (f r).status ≡ r.status)
      → ((r : PaymentRow) → (f r).id ≡ r.id)
      → (os : List OrderRow) (ps : List PaymentRow) → Q os ps
      → Q os (Payments.rewrite (Payments.has_id id) f ps)

-- An invariant of the two tables, as one of the database.
abbrev pub Of : (List OrderRow → List PaymentRow → Type 0) → Db → Type 0
Of Q d = Q d.orders d.payments
