-- ===== src/Payment/RefundLaws.antt =====
-- What the service's refunds leave alone.
use go_api_project_template.Prelude.{
  ℕ, ◌+◌, ◌≡◌, ◌∙◌, refl, Bool, true, false, ◌||◌, some, find, Bool-cases, inl, inr,
}
use go_api_project_template.Database.{World, pure, raise, or_raise, sql, ◌>>=◌}
use go_api_project_template.Payment.Domain.{PaymentStatus, among}
use go_api_project_template.Payment.Repository as Payments
use go_api_project_template.Payment.Refund.{settle_refund, refund, refundable}
use go_api_project_template.Schema.{PaymentRow, Db, Env}

-- The gateway has taken the money, or may have.
abbrev pub captured : PaymentStatus → Bool
captured PaymentStatus.success = true
captured PaymentStatus.requires_review = true
captured s = false

refundable-captured : (s : PaymentStatus) → among refundable s ≡ captured s
refundable-captured PaymentStatus.pending = refl
refundable-captured PaymentStatus.processing = refl
refundable-captured PaymentStatus.success = refl
refundable-captured PaymentStatus.failed = refl
refundable-captured PaymentStatus.cancelled = refl
refundable-captured PaymentStatus.refunded = refl
refundable-captured PaymentStatus.requires_review = refl

-- A payment that is neither successful nor under review (one that is pending, has failed, was cancelled
-- or is refunded already) is not refunded: whatever statements fail,
-- neither a refund that is asked for nor the settling of one changes a table, and neither of them
-- sends anything after it has read the payment.
pub refunds-refused :
    (env : Env) (payment order : ℕ) (p : PaymentRow) (w : World Db)
    → find (Payments.has_id payment) w.db.payments ≡ some p
    → captured p.status ≡ false
    → ((settle_refund env payment order w).1.db ≡ w.db)
      × ((settle_refund env payment order w).1.tick ≡ w.tick + 1)
      × ((refund env payment w).1.db ≡ w.db)
      × ((refund env payment w).1.tick ≡ w.tick + 1)
unfolding settle_refund refund Payments.get_by_id sql ◌>>=◌ pure raise or_raise
    Payments.scan_payment
refunds-refused env payment order p w e n = elim (Bool-cases (w.aborted || env.fault w.tick)) [
  | inl h ↦ rw h (refl, refl, refl, refl)
  | inr h ↦ rw (h, e, refundable-captured p.status ∙ n) (refl, refl, refl, refl)
]
