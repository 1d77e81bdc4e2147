-- ===== src/Payment.antt =====
-- internal/features/payment: its domain, its gateway port, its repository and its service, each in
-- a module below.
pub mod Domain
pub mod Gateway
pub mod Repository
pub mod Finalize
pub mod FinalizeLaws
pub mod FinalizeSteps
pub mod FinalizeRun
pub mod Charge
pub mod Webhook
pub mod WebhookLaws
pub mod Refund
pub mod RefundLaws
