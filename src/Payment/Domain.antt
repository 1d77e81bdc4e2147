-- ===== src/Payment/Domain.antt =====
-- internal/features/payment/domain/payment.go.
use go_api_project_template.Prelude.{ℕ, String, Bool, Option, List, ◌==◌, contains, map}
use go_api_project_template.Money.{Money}

pub data PaymentStatus : Type 0 where
  pending processing success failed cancelled requires_review refunded : PaymentStatus

abbrev pub payment_rank : PaymentStatus → ℕ
payment_rank PaymentStatus.pending = 0
payment_rank PaymentStatus.processing = 1
payment_rank PaymentStatus.success = 2
payment_rank PaymentStatus.failed = 3
payment_rank PaymentStatus.cancelled = 4
payment_rank PaymentStatus.requires_review = 5
payment_rank PaymentStatus.refunded = 6

abbrev pub same_payment_status : PaymentStatus → PaymentStatus → Bool
same_payment_status s t = payment_rank s == payment_rank t

-- `status = ANY(from)`.
abbrev pub among : List PaymentStatus → PaymentStatus → Bool
among from s = contains (map payment_rank from) (payment_rank s)

-- `GatewayResponse` holds the stored JSON of the gateway's answer; the program never reads it back.
pub record Payment : Type 0 where
  pub id : ℕ
  pub order_id : ℕ
  pub amount : Money
  pub status : PaymentStatus
  pub payment_method_id : String
  pub payment_url : String
  pub gateway_txn_id : String
  pub paid_at : Option ℕ
