-- ===== src/Payment/Charge.antt =====
-- internal/features/payment/service.go, `Charge`, with contract.go.
use go_api_project_template.Prelude.{
  ℕ, ◌+◌, String, Bool, true, false, Option, none, str_eq, if◌then◌else◌,
}
use go_api_project_template.Errs.{Err, Result, ok, err, is}
use go_api_project_template.Money.{Money}
use go_api_project_template.Database.{pure, raise, attempt, or_raise, ◌>>=◌, ◌>>◌}
use go_api_project_template.Payment.Domain.{Payment, PaymentStatus}
use go_api_project_template.Payment.Gateway.{GatewayChargeRequest, GatewayChargeResponse}
use go_api_project_template.Payment.Repository.{
  create, get_active_by_order_id, update_gateway, update_payment_url,
}
use go_api_project_template.Payment.Finalize.{finalize_success, compensate_refund}
use go_api_project_template.Schema.{Env, Action}

pub record ChargeRequest : Type 0 where
  pub order_id : ℕ
  pub amount : Money
  pub payment_method_id : String

pub record ChargeResult : Type 0 where
  pub payment_id : ℕ
  pub payment_url : String
  pub charged : Bool

-- The payment that `Create` is given.
unfoldable pub new_payment : ChargeRequest → Payment
new_payment req = record {
  id = 0;
  order_id = req.order_id;
  amount = req.amount;
  status = PaymentStatus.pending;
  payment_method_id = req.payment_method_id;
  payment_url = "";
  gateway_txn_id = "";
  paid_at = none;
}

unfoldable pub charge_request : Payment → ChargeRequest → GatewayChargeRequest
charge_request p req = record {
  idempotency_key = p.id;
  order_id = req.order_id;
  amount = req.amount.amount;
  currency = req.amount.currency;
  payment_method_id = req.payment_method_id;
}

-- A call of the gateway counts as a step, so that two calls may be answered differently.
unfoldable pub call_gateway : {A : Type 0} → (ℕ → Option A) → Action A
call_gateway answer w = or_raise Err.internal (answer w.tick) (record w { tick = w.tick + 1 })

module _ (env : Env) where
  -- The active payment, or a new one.
  unfoldable pub payment_for : ChargeRequest → Result Payment → Action Payment
  payment_for req (ok existing) = pure existing
  payment_for req (err e) = if is e Err.not_found then create env (new_payment req) else raise e

  -- A finalization that fails for another reason than having happened is compensated.
  unfoldable pub after_finalize : ℕ → ℕ → Result (Unit {0}) → Action (Unit {0})
  after_finalize payment order (ok u) = pure tt
  after_finalize payment order (err e) =
      if is e Err.already_finalized then pure tt else compensate_refund env payment order

  unfoldable pub charged_now : ℕ → ℕ → Action ChargeResult
  charged_now payment order = do
    finalized ← attempt (finalize_success env payment order)
    after_finalize payment order finalized
    pure (record { payment_id = payment; payment_url = ""; charged = true })

  unfoldable pub charge_pending : ℕ → String → Action ChargeResult
  charge_pending payment url =
      if str_eq url ""
      then pure (record { payment_id = payment; payment_url = ""; charged = false })
      else (do
        attempt (update_payment_url env payment url)
        pure (record { payment_id = payment; payment_url = url; charged = false }))

  -- The `switch` on the gateway's status.
  unfoldable pub dispatch : ℕ → ℕ → GatewayChargeResponse → Action ChargeResult
  dispatch payment order resp =
      if str_eq resp.status "success"
      then charged_now payment order
      else if str_eq resp.status "pending"
      then charge_pending payment resp.payment_url
      else raise Err.bad_request

  unfoldable pub charge : ChargeRequest → Action ChargeResult
  charge req = do
    existing ← attempt (get_active_by_order_id env req.order_id)
    p ← payment_for req existing
    resp ← call_gateway (λ n. env.gateway_charge n (charge_request p req))
    attempt (update_gateway env p.id resp.transaction_id resp)
    dispatch p.id req.order_id resp
