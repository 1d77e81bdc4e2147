-- ===== src/Promotion/Service.antt =====
-- internal/features/promotion/service.go. `GetByCode` is read from the tables: inside a transaction
-- the caching repository passes the call on, and `Apply`, which only quotes a discount, is modelled
-- without the cache.
use go_api_project_template.Prelude.{ℕ, String, Bool, Option, none, some, str_eq, if◌then◌else◌}
use go_api_project_template.Prelude.Int.{ℤ}
use go_api_project_template.Errs.{Err, Result, ok, err, is}
use go_api_project_template.Database.{pure, raise, attempt, from_result, run_tx, ◌>>=◌, ◌>>◌}
use go_api_project_template.Promotion.Domain.{
  Kind, Promotion, CouponUsage, validate_promotion, validate_percentage_value, compute_discount,
}
use go_api_project_template.Promotion.Repository.{
  get_by_code, get_by_id, apply_promotion, release_promotion, create_usage,
  delete_usage_by_order_id,
}
use go_api_project_template.Promotion.Repository as Repository
use go_api_project_template.Schema.{Env, Action, clock}

-- The fields that `Update` may change; an empty code and a missing value keep the old one.
pub record Changes : Type 0 where
  pub code : String
  pub type : Option Kind
  pub value : Option ℤ
  pub min_order_amount : Option ℤ
  pub max_discount : Option ℤ
  pub max_uses : Option ℕ
  pub starts_at : Option ℕ
  pub expires_at : Option ℕ
  pub active : Option Bool

abbrev keep_or : {A : Type 0} → A → Option A → A
keep_or old none = old
keep_or old (some new) = new

abbrev keep_some : {A : Type 0} → Option A → Option A → Option A
keep_some old none = old
keep_some old (some new) = some new

unfoldable pub changed : Promotion → Changes → Promotion
changed p c = record p {
  code = if str_eq c.code "" then p.code else c.code;
  type = keep_or p.type c.type;
  value = keep_or p.value c.value;
  min_order_amount = keep_or p.min_order_amount c.min_order_amount;
  max_discount = keep_some p.max_discount c.max_discount;
  max_uses = keep_some p.max_uses c.max_uses;
  starts_at = keep_or p.starts_at c.starts_at;
  expires_at = keep_or p.expires_at c.expires_at;
  active = keep_or p.active c.active;
}

module _ (env : Env) where
  -- `Service.Apply`: the discount that a code would give.
  unfoldable pub quote : String → ℤ → Action ℤ
  quote code amount = do
    promo ← get_by_code env code
    now ← clock env
    from_result (validate_promotion now promo amount)
    pure (compute_discount env.percent promo amount)

  unfoldable pub create : Promotion → Action Promotion
  create promo = do
    from_result (validate_percentage_value promo.type promo.value)
    Repository.create env promo

  unfoldable pub update : ℕ → Changes → Action Promotion
  update id c = do
    old ← get_by_id env id
    let promo = changed old c
    from_result (validate_percentage_value promo.type promo.value)
    Repository.update env promo
    pure promo

  -- `Service.Reserve`, the body of its transaction.
  unfoldable pub reserve_body : String → ℕ → ℕ → ℤ → Action ℤ
  reserve_body code user_id order_id subtotal = do
    promo ← get_by_code env code
    now ← clock env
    from_result (validate_promotion now promo subtotal)
    let discount = compute_discount env.percent promo subtotal
    apply_promotion env promo.id
    create_usage env (record {
      id = 0;
      coupon_id = promo.id;
      user_id = user_id;
      order_id = order_id;
      discount = discount;
    })
    pure discount

  unfoldable pub reserve : String → ℕ → ℕ → ℤ → Action ℤ
  reserve code user_id order_id subtotal =
      run_tx env.fault (reserve_body code user_id order_id subtotal)

  -- What `Release` does with the usage that it deleted, or with the error.
  unfoldable pub release_found : Result CouponUsage → Action (Unit {0})
  release_found (ok usage) = release_promotion env usage.coupon_id
  release_found (err e) = if is e Err.not_found then pure tt else raise e

  unfoldable pub release_body : ℕ → Action (Unit {0})
  release_body order_id = do
    usage ← attempt (delete_usage_by_order_id env order_id)
    release_found usage

  unfoldable pub release : ℕ → Action (Unit {0})
  release order_id = run_tx env.fault (release_body order_id)
