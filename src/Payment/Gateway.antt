-- ===== src/Payment/Gateway.antt =====
-- internal/features/payment/gateway.go: what the program sends to a payment gateway and what it
-- reads of the answer. The gateway itself is a parameter of the model. Identifiers that are sent as
-- text are the numbers that the text spells.
use go_api_project_template.Prelude.{ℕ, String}
use go_api_project_template.Prelude.Int.{ℤ}

pub record GatewayChargeRequest : Type 0 where
  pub idempotency_key : ℕ
  pub order_id : ℕ
  pub amount : ℤ
  pub currency : String
  pub payment_method_id : String

pub record GatewayChargeResponse : Type 0 where
  pub transaction_id : String
  pub status : String
  pub payment_url : String

pub record GatewayRefundRequest : Type 0 where
  pub idempotency_key : ℕ
  pub transaction_id : String
  pub amount : ℤ
  pub reason : String

pub record GatewayRefundResponse : Type 0 where
  pub refund_id : String
  pub status : String
