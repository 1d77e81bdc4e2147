-- ===== src/Checkout.antt =====
-- internal/features/checkout/service.go: placing an order and paying for it, a second attempt to
-- pay, and cancelling.
use go_api_project_template.Prelude.{ℕ, String, Bool, not, ◌&&◌, ◌==◌, if◌then◌else◌}
use go_api_project_template.Prelude.Int.{pos, ltb_ℤ}
use go_api_project_template.Errs.{Err, Result, ok, err, is}
use go_api_project_template.Database.{pure, raise, attempt, ◌>>=◌, ◌>>◌}
use go_api_project_template.Order.Domain.{NewOrder}
use go_api_project_template.Order.Service as Orders
use go_api_project_template.Order.Service.{Snapshot}
use go_api_project_template.Order.Place.{place}
use go_api_project_template.Payment.Charge.{ChargeRequest, ChargeResult, charge}
use go_api_project_template.Payment.Webhook.{cancel_pending_by_order_id}
use go_api_project_template.Schema.{Env, Action}

pub record PlaceOrderInput : Type 0 where
  pub order : NewOrder
  pub payment_method_id : String
  pub idempotency_key : String

unfoldable pub request_for : Snapshot → String → ChargeRequest
request_for o method = record { order_id = o.id; amount = o.total; payment_method_id = method }

module _ (env : Env) where
  -- A failed charge is logged: the order stays in awaiting_payment.
  unfoldable pub pay_placed : Snapshot → Bool → String → Action (Unit {0})
  pay_placed placed created method =
      if created && ltb_ℤ (pos 0) placed.total.amount
      then (do attempt (charge env (request_for placed method)); pure tt)
      else pure tt

  unfoldable pub place_order : ℕ → PlaceOrderInput → Action Snapshot
  place_order user inp = do
    placed ← place env user inp.order inp.idempotency_key
    pay_placed placed.0 placed.1 inp.payment_method_id
    pure placed.0

  unfoldable pub claimed : Result (Unit {0}) → Action (Unit {0})
  claimed (ok u) = pure tt
  claimed (err e) = if is e Err.conflict then raise Err.order_not_payable else raise e

  -- A failed charge gives the claim on the order back.
  unfoldable pub charged_or_release : ℕ → Result ChargeResult → Action ChargeResult
  charged_or_release order (ok result) = pure result
  charged_or_release order (err e) = do attempt (Orders.mark_awaiting_payment env order); raise e

  unfoldable pub retry_payment : ℕ → ℕ → String → Action ChargeResult
  retry_payment user order method = do
    o ← Orders.snapshot env order
    if not (o.user_id == user) then raise Err.not_found else do
      claim ← attempt (Orders.begin_payment_attempt env order)
      claimed claim
      result ← attempt (charge env (request_for o method))
      charged_or_release order result

  unfoldable pub cancel_order : ℕ → ℕ → Action (Unit {0})
  cancel_order user order = do
    Orders.cancel_by_user env user order
    attempt (cancel_pending_by_order_id env order)
    pure tt
