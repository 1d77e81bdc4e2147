-- ===== src/Promotion/Repository.antt =====
-- internal/features/promotion/adapter/postgres/repository.go: each method is one statement.
use go_api_project_template.Prelude.{
  ℕ, suc, ◌+◌, ◌-◌, String, Bool, true, false, not, ◌&&◌, Option, none, some, List, [], ◌∷◌, ◌++◌,
  map, ltb, leb, ◌==◌, find, exists, str_eq, if◌then◌else◌,
}
use go_api_project_template.Prelude.Int.{pos, ltb_ℤ}
use go_api_project_template.Inventory.Levels.{int_max}
use go_api_project_template.Errs.{Err}
use go_api_project_template.Database.{Outcome, done, violation, sql, pure, raise, or_raise, ◌>>=◌}
use go_api_project_template.Promotion.Domain.{Promotion, CouponUsage}
use go_api_project_template.Schema.{Db, Env, Action, clock}

abbrev pub has_code : String → Promotion → Bool
has_code code p = str_eq p.code code

abbrev pub has_id : ℕ → Promotion → Bool
has_id id p = p.id == id

-- The unique constraint on codes, over the rows of other promotions, and CHECK (value > 0).
abbrev other_code : ℕ → String → Promotion → Bool
other_code id code p = not (p.id == id) && str_eq p.code code

unfoldable pub insert_promotion : Promotion → Db → Outcome Db Promotion
insert_promotion p d =
    if not (ltb_ℤ (pos 0) p.value)
    then violation Err.internal
    else if exists (has_code p.code) d.promotions
    then violation Err.conflict
    else (let q = record p { id = d.next_id; used_count = 0 } in
        done q (record d { promotions = d.promotions ++ q ∷ []; next_id = suc d.next_id }))

-- The columns of the UPDATE: all but the key and the count of uses.
abbrev rewrite : Promotion → Promotion → Promotion
rewrite p q = if has_id p.id q then record p { id = q.id; used_count = q.used_count } else q

unfoldable pub update_promotion : Promotion → Db → Outcome Db Bool
update_promotion p d =
    if not (exists (has_id p.id) d.promotions)
    then done false d
    else if not (ltb_ℤ (pos 0) p.value)
    then violation Err.internal
    else if exists (other_code p.id p.code) d.promotions
    then violation Err.conflict
    else done true (record d { promotions = map (rewrite p) d.promotions })

abbrev without : ℕ → List Promotion → List Promotion
without id [] = []
without id (p ∷ ps) = if has_id id p then without id ps else p ∷ without id ps

abbrev below_max : ℕ → Option ℕ → Bool
below_max n none = true
below_max n (some m) = ltb n m

-- The WHERE of `ApplyPromotion`.
abbrev pub usable : ℕ → ℕ → Promotion → Bool
usable now id p =
    has_id id p
    && p.active
    && below_max p.used_count p.max_uses
    && leb p.starts_at now
    && leb now p.expires_at

abbrev pub use_once : ℕ → ℕ → Promotion → Promotion
use_once now id p = if usable now id p then record p { used_count = p.used_count + 1 } else p

abbrev pub give_back : ℕ → Promotion → Promotion
give_back id p =
    if has_id id p && ltb 0 p.used_count then record p { used_count = p.used_count - 1 } else p

-- A taken row whose INT column `used_count` has no next value.
abbrev last_use : ℕ → ℕ → Promotion → Bool
last_use now id p = usable now id p && leb int_max p.used_count

unfoldable pub write_use : ℕ → ℕ → Db → Outcome Db Bool
write_use now id d =
    if exists (last_use now id) d.promotions
    then violation Err.internal
    else done (exists (usable now id) d.promotions)
        (record d { promotions = map (use_once now id) d.promotions })

unfoldable pub write_release : ℕ → Db → Outcome Db (Unit {0})
write_release id d = done tt (record d { promotions = map (give_back id) d.promotions })

-- The unique constraint of coupon_usages on the coupon and the user.
abbrev pub same_user : ℕ → ℕ → CouponUsage → Bool
same_user coupon user u = u.coupon_id == coupon && u.user_id == user

unfoldable pub insert_usage : CouponUsage → Db → Outcome Db (Unit {0})
insert_usage u d =
    if exists (same_user u.coupon_id u.user_id) d.usages
    then violation Err.conflict
    else done tt (record d {
      usages = d.usages ++ (record u { id = d.next_id }) ∷ [];
      next_id = suc d.next_id;
    })

abbrev pub for_order : ℕ → CouponUsage → Bool
for_order id u = u.order_id == id

abbrev pub drop_order : ℕ → List CouponUsage → List CouponUsage
drop_order id [] = []
drop_order id (u ∷ us) = if for_order id u then drop_order id us else u ∷ drop_order id us

unfoldable pub delete_usage : ℕ → Db → Outcome Db (Option CouponUsage)
delete_usage id d =
    done (find (for_order id) d.usages) (record d { usages = drop_order id d.usages })

module _ (env : Env) where
  unfoldable pub get_by_code : String → Action Promotion
  get_by_code code = do
    row ← sql env.fault (λ (d : Db). done (find (has_code code) d.promotions) d)
    or_raise Err.not_found row

  unfoldable pub get_by_id : ℕ → Action Promotion
  get_by_id id = do
    row ← sql env.fault (λ (d : Db). done (find (has_id id) d.promotions) d)
    or_raise Err.not_found row

  unfoldable pub create : Promotion → Action Promotion
  create p = sql env.fault (insert_promotion p)

  unfoldable pub update : Promotion → Action (Unit {0})
  update p = do
    found ← sql env.fault (update_promotion p)
    if found then pure tt else raise Err.not_found

  unfoldable pub delete : ℕ → Action (Unit {0})
  delete id = do
    found ← sql env.fault (λ (d : Db).
        done (exists (has_id id) d.promotions) (record d { promotions = without id d.promotions }))
    if found then pure tt else raise Err.not_found

  unfoldable pub apply_promotion : ℕ → Action (Unit {0})
  apply_promotion id = do
    now ← clock env
    found ← sql env.fault (write_use now id)
    if found then pure tt else raise Err.coupon_exhausted

  unfoldable pub release_promotion : ℕ → Action (Unit {0})
  release_promotion id = sql env.fault (write_release id)

  unfoldable pub create_usage : CouponUsage → Action (Unit {0})
  create_usage u = sql env.fault (insert_usage u)

  unfoldable pub delete_usage_by_order_id : ℕ → Action CouponUsage
  delete_usage_by_order_id id = do row ← sql env.fault (delete_usage id); or_raise Err.not_found row
