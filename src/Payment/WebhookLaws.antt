-- ===== src/Payment/WebhookLaws.antt =====
-- What `HandleWebhook` of internal/features/payment/service.go reports to the gateway.
use go_api_project_template.Prelude.{
  ℕ, String, ◌≡◌, refl, Bool, true, false, not, ◌&&◌, Option, none, some, str_eq, if◌then◌else◌,
  arith,
}
use go_api_project_template.Errs.{Err, Result, ok, err, is_ok}
use go_api_project_template.Database.{World, raise}
use go_api_project_template.Database.Returns.{Returns, returns_rules}
use go_api_project_template.Payment.Domain.{Payment}
use go_api_project_template.Payment.Finalize.{compensate_refund}
use go_api_project_template.Payment.Webhook.{
  by_txn, or_by_txn, resolve_webhook_payment, verify_signature, webhook_finalized, webhook_success,
  webhook_failure, webhook_event, webhook_found, webhook_parsed, handle_webhook,
}
use go_api_project_template.Schema.{WebhookBody, Db, Env}

module _ (env : Env) where
  compensate_refund-Returns : (p o : ℕ) → Returns (compensate_refund env p o)
  unfolding compensate_refund
  compensate_refund-Returns p o = search returns_rules

  webhook_finalized-Returns :
      (p : Payment) (r : Result (Unit {0})) → Returns (webhook_finalized env p r)
  unfolding webhook_finalized
  webhook_finalized-Returns p (ok u) = search returns_rules
  webhook_finalized-Returns p (err e) = search (returns_rules, compensate_refund-Returns)

  webhook_event-Returns : (event : String) (p : Payment) → Returns (webhook_event env event p)
  unfolding webhook_event webhook_success webhook_failure
  webhook_event-Returns event p = search (returns_rules, webhook_finalized-Returns) depth 12

  by_txn-Returns : (txn : String) → Returns (by_txn env txn)
  unfolding by_txn
  by_txn-Returns txn = search returns_rules

  or_by_txn-Returns : (txn : String) (r : Result Payment) → Returns (or_by_txn env txn r)
  unfolding or_by_txn
  or_by_txn-Returns txn (ok p) = search returns_rules
  or_by_txn-Returns txn (err e) = by_txn-Returns txn

  resolve-Returns : (id : Option ℕ) (txn : String) → Returns (resolve_webhook_payment env id txn)
  unfolding resolve_webhook_payment
  resolve-Returns none txn = by_txn-Returns txn
  resolve-Returns (some id) txn = search (returns_rules, or_by_txn-Returns)

  webhook_found-Returns :
      (event : String) (o : Option Payment) → Returns (webhook_found env event o)
  unfolding webhook_found
  webhook_found-Returns event none = search returns_rules
  webhook_found-Returns event (some p) = webhook_event-Returns event p

  webhook_parsed-Returns : (o : Option WebhookBody) → Returns (webhook_parsed env o)
  unfolding webhook_parsed
  webhook_parsed-Returns none = search returns_rules
  webhook_parsed-Returns (some body) =
      search (returns_rules, resolve-Returns, webhook_found-Returns)

-- Whether a payload carries the signature that the configured secret gives.
abbrev pub authentic : Env → String → String → Bool
authentic env payload signature =
    not (str_eq env.webhook_secret "")
    && not (str_eq signature "")
    && str_eq (env.hmac env.webhook_secret payload) signature

unit_result : (r : Result (Unit {0})) → is_ok r ≡ true → r ≡ ok tt
unit_result (ok tt) h = refl
unit_result (err e) h = ground arith

-- A webhook is answered by its signature alone: with success if the secret is set and the signature
-- is the payload's under it, and as unauthorized if not, whatever the payload says, whatever the
-- tables hold and whatever statements fail.
pub handle_webhook-result :
    (env : Env) (payload signature : String) (w : World Db)
    → (handle_webhook env payload signature w).0
      ≡ (if authentic env payload signature then ok tt else err Err.unauthorized)
unfolding handle_webhook verify_signature raise
handle_webhook-result env payload signature w =
    let parsed =
      unit_result (webhook_parsed env (env.parse_webhook payload) w).0
        ((webhook_parsed-Returns env (env.parse_webhook payload)).at w) in
    ground (arith, parsed)

-- A payload without the right signature leaves the whole world as it is.
pub handle_webhook-refused :
    (env : Env) (payload signature : String) (w : World Db)
    → authentic env payload signature ≡ false
    → (handle_webhook env payload signature w).1 ≡ w
unfolding handle_webhook verify_signature raise
handle_webhook-refused env payload signature w h = ground arith
