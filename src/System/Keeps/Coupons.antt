-- ===== src/System/Keeps/Coupons.antt =====
-- Promotions and notifications write neither orders nor payments.
use go_api_project_template.Prelude.{ℕ, String, List, if_elim, exists}
use go_api_project_template.Prelude.Int.{ℤ}
use go_api_project_template.Errs.{Result, ok, err}
use go_api_project_template.Database.{sql}
use go_api_project_template.Database.Keeps.{
  Keeps, Holds, Keeps-sql, Keeps-Sound, sound_rules, Keeps-run_tx, Keeps-bind, keeps_rules,
}
use go_api_project_template.Promotion.Domain.{Promotion, CouponUsage}
use go_api_project_template.Promotion.Repository as Promotions
use go_api_project_template.Promotion.Service as Coupons
use go_api_project_template.Promotion.Service.{Changes}
use go_api_project_template.Notification
use go_api_project_template.Schema.{OrderRow, PaymentRow, Env, Keeps-clock}
use go_api_project_template.System.Laws.{Of}

module _ (Q : List OrderRow → List PaymentRow → Type 0) (env : Env) where
  write_use-Keeps : (now id : ℕ) → Keeps (Of Q) (sql env.fault (Promotions.write_use now id))
  unfolding Promotions.write_use
  write_use-Keeps now id =
      Keeps-sql env.fault _ (λ d h. if_elim (Holds (Of Q)) (exists _ d.promotions) _ _ tt h)

  write_release-Keeps : (id : ℕ) → Keeps (Of Q) (sql env.fault (Promotions.write_release id))
  unfolding Promotions.write_release
  write_release-Keeps id = Keeps-sql env.fault _ (λ d h. h)

  insert_usage-Keeps : (u : CouponUsage) → Keeps (Of Q) (sql env.fault (Promotions.insert_usage u))
  unfolding Promotions.insert_usage
  insert_usage-Keeps u = Keeps-Sound env.fault _ (λ d h. search sound_rules)

  delete_usage-Keeps : (id : ℕ) → Keeps (Of Q) (sql env.fault (Promotions.delete_usage id))
  unfolding Promotions.delete_usage
  delete_usage-Keeps id = Keeps-sql env.fault _ (λ d h. h)

  insert_promotion-Keeps :
      (p : Promotion) → Keeps (Of Q) (sql env.fault (Promotions.insert_promotion p))
  unfolding Promotions.insert_promotion
  insert_promotion-Keeps p = Keeps-Sound env.fault _ (λ d h. search sound_rules)

  update_promotion-Keeps :
      (p : Promotion) → Keeps (Of Q) (sql env.fault (Promotions.update_promotion p))
  unfolding Promotions.update_promotion
  update_promotion-Keeps p = Keeps-Sound env.fault _ (λ d h. search sound_rules)

  ruleset promotion_rules = (
    keeps_rules, Keeps-clock, write_use-Keeps, write_release-Keeps, insert_usage-Keeps,
    delete_usage-Keeps, insert_promotion-Keeps, update_promotion-Keeps,
  )

  apply_promotion-Keeps : (id : ℕ) → Keeps (Of Q) (Promotions.apply_promotion env id)
  unfolding Promotions.apply_promotion
  apply_promotion-Keeps id = search promotion_rules

  reserve_body-Keeps :
      (code : String) (user order : ℕ) (subtotal : ℤ)
      → Keeps (Of Q) (Coupons.reserve_body env code user order subtotal)
  unfolding Coupons.reserve_body Promotions.get_by_code Promotions.create_usage
  reserve_body-Keeps code user order subtotal =
      search (promotion_rules, apply_promotion-Keeps) depth 9

  pub coupon_reserve-Keeps :
      (code : String) (user order : ℕ) (subtotal : ℤ)
      → Keeps (Of Q) (Coupons.reserve env code user order subtotal)
  unfolding Coupons.reserve
  coupon_reserve-Keeps code user order subtotal = search (keeps_rules, reserve_body-Keeps)

  release_found-Keeps : (r : Result CouponUsage) → Keeps (Of Q) (Coupons.release_found env r)
  unfolding Coupons.release_found Promotions.release_promotion
  release_found-Keeps (ok u) = search promotion_rules
  release_found-Keeps (err e) = search promotion_rules

  pub coupon_release-Keeps : (order : ℕ) → Keeps (Of Q) (Coupons.release env order)
  unfolding Coupons.release Coupons.release_body Promotions.delete_usage_by_order_id
  coupon_release-Keeps order = search (promotion_rules, release_found-Keeps) depth 9

  pub quote-Keeps : (code : String) (n : ℤ) → Keeps (Of Q) (Coupons.quote env code n)
  unfolding Coupons.quote Promotions.get_by_code
  quote-Keeps code n = search promotion_rules depth 9

  pub promotion_create-Keeps : (p : Promotion) → Keeps (Of Q) (Coupons.create env p)
  unfolding Coupons.create Promotions.create
  promotion_create-Keeps p = search promotion_rules

  pub promotion_update-Keeps : (id : ℕ) (c : Changes) → Keeps (Of Q) (Coupons.update env id c)
  unfolding Coupons.update Promotions.update Promotions.get_by_id
  promotion_update-Keeps id c = search promotion_rules depth 9

  pub promotion_delete-Keeps : (id : ℕ) → Keeps (Of Q) (Promotions.delete env id)
  unfolding Promotions.delete
  promotion_delete-Keeps id =
      Keeps-bind _ _ (Keeps-sql env.fault _ (λ d h. h)) (λ found. search keeps_rules)

  insert_notification-Keeps :
      (user : ℕ) (title : String)
      → Keeps (Of Q) (sql env.fault (Notification.insert_notification user title))
  unfolding Notification.insert_notification
  insert_notification-Keeps user title = Keeps-sql env.fault _ (λ d h. h)

  pub notify-Keeps : (user : ℕ) (title : String) → Keeps (Of Q) (Notification.create env user title)
  unfolding Notification.create Notification.create_body
  notify-Keeps user title = Keeps-run_tx env.fault _ (
      Keeps-bind _ _ (insert_notification-Keeps user title)
        (λ id. Keeps-sql env.fault _ (λ d h. h)))

pub ruleset coupon_rules = (coupon_reserve-Keeps, coupon_release-Keeps, notify-Keeps)
