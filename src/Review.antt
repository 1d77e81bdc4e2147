-- ===== src/Review.antt =====
-- internal/features/review: service.go and adapter/postgres/repository.go, with `HasDeliveredOrder` of
-- internal/features/order. The table is that of create_reviews.sql: one review of a product for each
-- user, and a rating from 1 to 5.
pub mod Laws
use go_api_project_template.Prelude.{
  ℕ, suc, ◌+◌, String, Bool, true, false, not, ◌&&◌, ◌||◌, Option, none, some, List, [], ◌∷◌, ◌++◌,
  ltb, ◌==◌, exists, str_eq, if◌then◌else◌,
}
use go_api_project_template.Errs.{Err}
use go_api_project_template.Database.{Outcome, done, violation, sql, pure, raise, ◌>>=◌, ◌>>◌}
use go_api_project_template.Order.Domain.{Status}
use go_api_project_template.Platform.Paging.{
  CursorTexts, Place, take, rows_below, newest_first, decode_cursor, read_parts,
}
use go_api_project_template.Schema.{OrderRow, ItemRow, ReviewRow, Db, Env, Action, clock}

abbrev pub is_delivered : Status → Bool
is_delivered Status.delivered = true
is_delivered s = false

abbrev bought_in : ℕ → ℕ → List ItemRow → Bool
bought_in order product = exists (λ i. i.order_id == order && i.product_id == product)

abbrev pub delivered_to : ℕ → ℕ → OrderRow → Bool
delivered_to user order o = o.user_id == user && o.id == order && is_delivered o.status

-- The query of `HasDeliveredOrder`.
abbrev pub delivered_exists : ℕ → ℕ → ℕ → Db → Bool
delivered_exists user order product d =
    exists (delivered_to user order) d.orders && bought_in order product d.order_items

abbrev pub by_user : ℕ → ℕ → ReviewRow → Bool
by_user user product r = r.user_id == user && r.product_id == product

unfoldable pub insert_review : ℕ → ReviewRow → Db → Outcome Db ReviewRow
insert_review at r d =
    if ltb r.rating 1 || ltb 5 r.rating
    then violation Err.internal
    else if exists (by_user r.user_id r.product_id) d.reviews
    then violation Err.conflict
    else (let row = record r { id = d.next_id; created_at = at } in
        done row (record d { reviews = d.reviews ++ row ∷ []; next_id = suc d.next_id }))

abbrev without : ℕ → List ReviewRow → List ReviewRow
without id [] = []
without id (r ∷ rs) = let rest = without id rs in if r.id == id then rest else r ∷ rest

unfoldable pub delete_review : ℕ → Db → Outcome Db Bool
delete_review id d =
    done (exists (λ r. r.id == id) d.reviews) (record d { reviews = without id d.reviews })

abbrev published_of : ℕ → List ReviewRow → List ReviewRow
published_of product [] = []
published_of product (r ∷ rs) =
    let rest = published_of product rs in
    if r.product_id == product && str_eq r.status "published" then r ∷ rest else rest

abbrev place : ReviewRow → Place
place r = (r.created_at, r.id)

-- One row more than the page has; the caller cuts it off.
abbrev select_reviews : ℕ → ℕ → Option Place → Db → Outcome Db (List ReviewRow)
select_reviews product limit start d =
    done
      (take (suc limit)
        (rows_below place start (newest_first place (published_of product d.reviews))))
      d

abbrev pub select_at : ℕ → ℕ → Option Place → Db → Outcome Db (List ReviewRow)
select_at product limit none d = violation Err.internal
select_at product limit (some p) d = select_reviews product limit (some p) d

abbrev pub select_first : ℕ → ℕ → Db → Outcome Db (List ReviewRow)
select_first product limit d = select_reviews product limit none d

pub record NewReview : Type 0 where
  pub user_id : ℕ
  pub product_id : ℕ
  pub order_id : ℕ
  pub rating : ℕ
  pub title : String
  pub body : String

abbrev pub review_of : NewReview → ReviewRow
review_of n = record {
  id = 0;
  user_id = n.user_id;
  product_id = n.product_id;
  order_id = n.order_id;
  rating = n.rating;
  title = n.title;
  body = n.body;
  status = "published";
  created_at = 0;
}

module _ (env : Env) where
  unfoldable pub has_delivered_order : ℕ → ℕ → ℕ → Action Bool
  has_delivered_order user order product =
      sql env.fault (λ (d : Db). done (delivered_exists user order product d) d)

  unfoldable pub has_user_reviewed : ℕ → ℕ → Action Bool
  has_user_reviewed user product =
      sql env.fault (λ (d : Db). done (exists (by_user user product) d.reviews) d)

  unfoldable pub create_row : ReviewRow → Action ReviewRow
  create_row r = do at ← clock env; sql env.fault (insert_review at r)

  abbrev pub list_from : CursorTexts → ℕ → ℕ → Option (List ℕ × List ℕ) → Action (List ReviewRow)
  list_from texts product limit none = raise Err.bad_request
  list_from texts product limit (some parts) =
      sql env.fault (select_at product limit (read_parts texts (some parts)))

  abbrev pub list_at : CursorTexts → ℕ → ℕ → List ℕ → Action (List ReviewRow)
  list_at texts product limit [] = sql env.fault (select_first product limit)
  list_at texts product limit (c ∷ cs) =
      list_from texts product limit (decode_cursor texts (c ∷ cs))

  unfoldable pub list_by_product : CursorTexts → ℕ → ℕ → List ℕ → Action (List ReviewRow)
  list_by_product texts product limit cursor = list_at texts product limit cursor

  unfoldable pub delete : ℕ → Action (Unit {0})
  delete id = do
    found ← sql env.fault (delete_review id)
    if found then pure tt else raise Err.not_found

  abbrev pub create_new : ReviewRow → Action ReviewRow
  create_new r = do
    reviewed ← has_user_reviewed r.user_id r.product_id
    if reviewed then raise Err.conflict else create_row r

  unfoldable pub create : NewReview → Action ReviewRow
  create n = do
    delivered ← has_delivered_order n.user_id n.order_id n.product_id
    if not delivered then raise Err.bad_request else create_new (review_of n)
