-- ===== src/Review/Laws.antt =====
-- internal/features/review/service.go: who can review a product, and how often.
use go_api_project_template.Prelude.{
  ℕ, ◌≤◌, ◌≡◌, refl, subst, Bool, true, false, not, ◌||◌, ltb, exists, if◌then◌else◌, if_elim,
  Bool-cases, inl, inr, arith, ◌⊎◌, ◌&&◌, ◌==◌, ==→eq, List, [], ◌∷◌,
}
use go_api_project_template.Errs.{Err, ok}
use go_api_project_template.Database.{World, raise}
use go_api_project_template.Database.Ensures.{
  Ensures, Promise, Settled, Ensures-raise, Ensures-if, Ensures-sql, Ensures-bind,
}
use go_api_project_template.Review.{
  is_delivered, delivered_to, delivered_exists, by_user, insert_review, has_delivered_order,
  has_user_reviewed, create_row, NewReview, review_of, create_new, create,
}
use go_api_project_template.Order.Domain.{Status}
use go_api_project_template.Schema.{OrderRow, ItemRow, ReviewRow, Db, Env, clock}

-- A row with the property stands in the table.
abbrev pub Has : {A : Type 0} → (A → Type 0) → List A → Type 0
Has P [] = ⊥
Has P (x ∷ xs) = P x ⊎ Has P xs

-- The order of the user that has been delivered.
pub record DeliveredTo (user order : ℕ) (o : OrderRow) : Type 0 where
  pub owner : o.user_id ≡ user
  pub number : o.id ≡ order
  pub delivered : o.status ≡ Status.delivered

-- The row of the order for the product.
pub record ItemOf (order product : ℕ) (i : ItemRow) : Type 0 where
  pub of_order : i.order_id ≡ order
  pub of_product : i.product_id ≡ product

exists-Has :
    {A : Type 0} (f : A → Bool) (P : A → Type 0)
    → ((x : A) → f x ≡ true → P x)
    → (xs : List A) → exists f xs ≡ true
    → Has P xs
exists-Has f P h [] e = ground arith
exists-Has f P h (x ∷ xs) e = elim (Bool-cases (f x)) [
  | inl here ↦ inl (h x here)
  | inr other ↦ inr (exists-Has f P h xs (rw other at e))
]

is_delivered-eq : (s : Status) → is_delivered s ≡ true → s ≡ Status.delivered
is_delivered-eq Status.awaiting_payment e = ground arith
is_delivered-eq Status.payment_processing e = ground arith
is_delivered-eq Status.paid e = ground arith
is_delivered-eq Status.processing e = ground arith
is_delivered-eq Status.shipped e = ground arith
is_delivered-eq Status.delivered e = refl
is_delivered-eq Status.cancelled e = ground arith
is_delivered-eq Status.expired e = ground arith
is_delivered-eq Status.refunded e = ground arith
is_delivered-eq Status.fulfillment_failed e = ground arith

delivered_to-row :
    (user order : ℕ) (o : OrderRow) → delivered_to user order o ≡ true → DeliveredTo user order o
delivered_to-row user order o h = record {
  owner = ==→eq o.user_id user (ground arith);
  number = ==→eq o.id order (ground arith);
  delivered = is_delivered-eq o.status (ground arith);
}

item_row :
    (order product : ℕ) (i : ItemRow)
    → (i.order_id == order && i.product_id == product) ≡ true
    → ItemOf order product i
item_row order product i h = record {
  of_order = ==→eq i.order_id order (ground arith);
  of_product = ==→eq i.product_id product (ground arith);
}

delivered_exists-rows :
    (user order product : ℕ) (d : Db)
    → delivered_exists user order product d ≡ true
    → Has (DeliveredTo user order) d.orders × Has (ItemOf order product) d.order_items
delivered_exists-rows user order product d h = (
  exists-Has _ _ (delivered_to-row user order) d.orders (ground arith),
  exists-Has _ _ (item_row order product) d.order_items (ground arith),
)

module _ (env : Env) (n : NewReview) where
  abbrev Delivered : Db → Type 0
  Delivered d = delivered_exists n.user_id n.order_id n.product_id d ≡ true

  abbrev Reviewed : ReviewRow → Db → Type 0
  Reviewed r d = Delivered d × (1 ≤ n.rating) × (n.rating ≤ 5)

  insert_review-Reviewed :
      (at : ℕ) (d : Db) → Delivered d → Settled Reviewed (insert_review at (review_of n) d)
  unfolding insert_review
  insert_review-Reviewed at d h = elim (Bool-cases (ltb n.rating 1 || ltb 5 n.rating)) [
    | inl bad ↦ rw bad tt
    | inr good ↦ rw good (
        if_elim (Settled Reviewed) (exists (by_user n.user_id n.product_id) d.reviews) _ _ tt
          (h, ground arith, ground arith))
  ]

  create_row-Reviewed : Ensures Delivered (create_row env (review_of n)) Reviewed
  unfolding create_row clock
  create_row-Reviewed =
      Ensures-bind (λ (at : ℕ) d. Delivered d) _ _ (record { at = λ w h. h })
        (λ at. Ensures-sql env.fault _ (insert_review-Reviewed at))

  create_new-Reviewed :
      (b : Bool)
      → Ensures
          (λ d. delivered_exists n.user_id n.order_id n.product_id d ≡ b)
          (if not b then raise Err.bad_request else create_new env (review_of n))
          Reviewed
  unfolding has_user_reviewed
  create_new-Reviewed false = Ensures-raise Err.bad_request
  create_new-Reviewed true =
      Ensures-bind (λ (r : Bool) d. Delivered d) _ _ (Ensures-sql env.fault _ (λ d h. h))
        (λ r. Ensures-if r _ _ (Ensures-raise Err.conflict) create_row-Reviewed)

  create-ensures : Ensures (λ d. Unit {0}) (create env n) Reviewed
  unfolding create has_delivered_order
  create-ensures =
      Ensures-bind (λ (b : Bool) d. delivered_exists n.user_id n.order_id n.product_id d ≡ b) _ _
        (Ensures-sql env.fault _ (λ d h. refl)) create_new-Reviewed

-- Where a review is made, the table of orders has an order of its user with the number that it names and
-- the status `delivered`, the table of items has a row of that order for the product, and the rating is
-- from 1 to 5; whatever statements fail.
pub create-Reviewed :
    (env : Env) (n : NewReview) (w : World Db) (r : ReviewRow)
    → (create env n w).0 ≡ ok r
    → Has (DeliveredTo n.user_id n.order_id) (create env n w).1.db.orders
      × Has (ItemOf n.order_id n.product_id) (create env n w).1.db.order_items
      × (1 ≤ n.rating)
      × (n.rating ≤ 5)
create-Reviewed env n w r e =
    let made =
      subst (λ x. Promise (Reviewed env n) x (create env n w).1.db) e
        ((create-ensures env n).at w tt) in
    let rows =
      delivered_exists-rows n.user_id n.order_id n.product_id (create env n w).1.db made.0 in
    (rows.0, rows.1, made.1, made.2)
