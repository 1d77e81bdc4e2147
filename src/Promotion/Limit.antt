-- ===== src/Promotion/Limit.antt =====
-- The limit on the uses of a promotion, over the transactions of promotion/service.go.
use go_api_project_template.Prelude.{ℕ, String, List, [], ◌∷◌, map, All, if_elim, exists}
use go_api_project_template.Prelude.Int.{ℤ}
use go_api_project_template.Errs.{Result, ok, err}
use go_api_project_template.Database.{World}
use go_api_project_template.Database.Keeps.{
  Keeps, Holds, Keeps-sql, Keeps-Sound, Keeps-bind, sound_rules, keeps_rules,
}
use go_api_project_template.Promotion.Domain.{Promotion, CouponUsage}
use go_api_project_template.Promotion.Repository.{
  use_once, give_back, insert_usage, write_use, write_release, delete_usage, apply_promotion,
  release_promotion, create_usage, delete_usage_by_order_id, get_by_code,
}
use go_api_project_template.Promotion.Service.{
  reserve, reserve_body, release, release_body, release_found,
}
use go_api_project_template.Promotion.Laws.{
  WithinLimit, use_once-WithinLimit, give_back-WithinLimit,
}
use go_api_project_template.Schema.{Db, Env, Keeps-clock}

abbrev pub AllWithin : Db → Type 0
AllWithin d = All WithinLimit d.promotions

map-WithinLimit :
    (f : Promotion → Promotion)
    → ((p : Promotion) → WithinLimit p → WithinLimit (f p))
    → (ps : List Promotion) → All WithinLimit ps
    → All WithinLimit (map f ps)
map-WithinLimit f k [] h = tt
map-WithinLimit f k (p ∷ ps) h = (k p h.0, map-WithinLimit f k ps h.1)

module _ (env : Env) where
  get_by_code-AllWithin : (code : String) → Keeps AllWithin (get_by_code env code)
  unfolding get_by_code
  get_by_code-AllWithin code = search keeps_rules

  apply_promotion-AllWithin : (id : ℕ) → Keeps AllWithin (apply_promotion env id)
  unfolding apply_promotion write_use
  apply_promotion-AllWithin id = Keeps-bind _ _ (Keeps-clock _ env) (λ now.
      Keeps-bind _ _
        (Keeps-sql env.fault _ (λ d h.
          if_elim (Holds AllWithin) (exists _ d.promotions) _ _ tt
            (map-WithinLimit (use_once now id) (use_once-WithinLimit now id) d.promotions h)))
        (λ found. search keeps_rules))

  release_promotion-AllWithin : (id : ℕ) → Keeps AllWithin (release_promotion env id)
  unfolding release_promotion write_release
  release_promotion-AllWithin id =
      Keeps-sql env.fault _
        (λ d h. map-WithinLimit (give_back id) (give_back-WithinLimit id) d.promotions h)

  create_usage-AllWithin : (u : CouponUsage) → Keeps AllWithin (create_usage env u)
  unfolding create_usage insert_usage
  create_usage-AllWithin u = Keeps-Sound env.fault _ (λ d h. search sound_rules)

  delete_usage-AllWithin : (id : ℕ) → Keeps AllWithin (delete_usage_by_order_id env id)
  unfolding delete_usage_by_order_id delete_usage
  delete_usage-AllWithin id =
      Keeps-bind _ _ (Keeps-sql env.fault _ (λ d h. h)) (λ row. search keeps_rules)

  reserve-AllWithin :
      (code : String) (user order : ℕ) (subtotal : ℤ)
      → Keeps AllWithin (reserve env code user order subtotal)
  unfolding reserve reserve_body
  reserve-AllWithin code user order subtotal =
      search
        (
          keeps_rules, Keeps-clock, get_by_code-AllWithin, apply_promotion-AllWithin,
          create_usage-AllWithin,
        )
        depth 14

  release_found-AllWithin : (r : Result CouponUsage) → Keeps AllWithin (release_found env r)
  unfolding release_found
  release_found-AllWithin (ok u) = release_promotion-AllWithin u.coupon_id
  release_found-AllWithin (err e) = search keeps_rules

  release-AllWithin : (order : ℕ) → Keeps AllWithin (release env order)
  unfolding release release_body
  release-AllWithin order =
      search (keeps_rules, delete_usage-AllWithin, release_found-AllWithin) depth 12

-- If no promotion is used more often than its limit allows, then none is after a coupon was reserved
-- for an order, nor after an order's coupon was released, whatever statements fail.
pub reserve-release-WithinLimit :
    (env : Env) (code : String) (user order : ℕ) (subtotal : ℤ) (w : World Db)
    → AllWithin w.db
    → AllWithin (reserve env code user order subtotal w).1.db × AllWithin (release env order w).1.db
reserve-release-WithinLimit env code user order subtotal w h =
    ((reserve-AllWithin env code user order subtotal).at w h, (release-AllWithin env order).at w h)
