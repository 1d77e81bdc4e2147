-- ===== src/CheckoutLaws.antt =====
-- Repeating a request with the same idempotency key, in internal/features/checkout/service.go and
-- `Place` of internal/features/order/service.go.
use go_api_project_template.Prelude.{
  ℕ, ◌+◌, ◌≡◌, refl, String, true, false, Bool, ◌||◌, ◌&&◌, ◌∙◌, some, List, [], ◌∷◌, find, arith,
  Bool-cases, ◌⊎◌, inl, inr, ◌≤◌, exists, Option-cases, ◌==◌,
}
use go_api_project_template.Errs.{Err, Result, ok, err, is_ok}
use go_api_project_template.Database.{World, pure, raise, attempt, or_raise, sql, ◌>>=◌}
use go_api_project_template.Order.Repository as OrderRows
use go_api_project_template.Order.Domain.{Status, Transition, allows, to_payment_attempt}
use go_api_project_template.Order.Service as Orders
use go_api_project_template.Order.Service.{Snapshot, placed_of}
use go_api_project_template.Order.Place.{place, place_found}
use go_api_project_template.Checkout.{
  PlaceOrderInput, place_order, pay_placed, retry_payment, claimed,
}
use go_api_project_template.Schema.{OrderRow, Db, Env, clock}

-- No table has changed, and the answer is the order that is there, or the error of a statement.
pub record Repeated (o : OrderRow) (w : World Db) (r : Result Snapshot × World Db) : Type 0 where
  pub same_db : r.1.db ≡ w.db
  pub answer : (r.0 ≡ ok (placed_of (OrderRows.scan_order o))) ⊎ (r.0 ≡ err Err.internal)

-- Where the user has an order with the idempotency key, `PlaceOrder` changes no table, whatever
-- statements fail: it makes no second order, takes no stock and no coupon, and charges nothing; it
-- answers with the order that is there, or with the error of a failed statement.
pub place_order-Repeated :
    (env : Env) (user : ℕ) (inp : PlaceOrderInput) (o : OrderRow) (w : World Db)
    → find (OrderRows.same_key user inp.idempotency_key) w.db.orders ≡ some o
    → Repeated o w (place_order env user inp w)
unfolding place_order place place_found pay_placed OrderRows.get_by_key OrderRows.list_items sql
    ◌>>=◌ pure raise attempt or_raise
place_order-Repeated env user inp o w e = elim (Bool-cases (w.aborted || env.fault w.tick)) [
  | inl h ↦ rw h (record { same_db = refl; answer = inr refl })
  | inr h ↦
      rw (h, e)
        (elim (Bool-cases (w.aborted || env.fault (w.tick + 1))) [
          | inl k ↦ rw k (record { same_db = refl; answer = inr refl })
          | inr k ↦ rw k (record { same_db = refl; answer = inl refl })
        ])
]

-- Where no row can take a transition, the update writes none.
apply_rows-none :
    (at id : ℕ) (t : Transition) (os : List OrderRow)
    → exists (OrderRows.takes id t) os ≡ false
    → OrderRows.apply_rows at id t os ≡ (os, 0)
unfolding OrderRows.apply_rows
apply_rows-none at id t [] h = refl
apply_rows-none at id t (r ∷ rs) h = elim (Bool-cases (OrderRows.takes id t r)) [
  | inl took ↦ absurd_true (rw took at h)
  | inr left ↦ rw (left, apply_rows-none at id t rs (rw left at h)) refl
]
  where
    absurd_true : {A : Type 0} → true ≡ false → A
    absurd_true e = ground arith

abbrev awaits_payment : Status → Bool
awaits_payment Status.awaiting_payment = true
awaits_payment s = false

-- Whether a row of the order says that it awaits its payment.
abbrev pub still_to_pay : ℕ → List OrderRow → Bool
still_to_pay order = exists (λ r. r.id == order && awaits_payment r.status)

attempt_allows : (s : Status) → allows to_payment_attempt.from s ≡ awaits_payment s
attempt_allows Status.awaiting_payment = refl
attempt_allows Status.payment_processing = refl
attempt_allows Status.paid = refl
attempt_allows Status.processing = refl
attempt_allows Status.shipped = refl
attempt_allows Status.delivered = refl
attempt_allows Status.cancelled = refl
attempt_allows Status.expired = refl
attempt_allows Status.refunded = refl
attempt_allows Status.fulfillment_failed = refl

-- The claim takes a row exactly if it awaits its payment.
takes-awaits :
    (order : ℕ) (os : List OrderRow)
    → exists (OrderRows.takes order to_payment_attempt) os ≡ still_to_pay order os
takes-awaits order [] = refl
takes-awaits order (r ∷ rs) = rw (attempt_allows r.status, takes-awaits order rs) refl

-- Where the order does not await its payment, a second attempt to pay for it answers with an
-- error, changes no table and sends nothing but the lookup and the claim on the order, so it charges
-- nothing: neither for an order whose charge is under way nor for one that is paid, cancelled,
-- expired or refunded; whatever statements fail.
pub retry_payment-refused :
    (env : Env) (user order : ℕ) (method : String) (w : World Db)
    → still_to_pay order w.db.orders ≡ false
    → (is_ok (retry_payment env user order method w).0 ≡ false)
      × ((retry_payment env user order method w).1.db ≡ w.db)
      × ((retry_payment env user order method w).1.tick ≤ w.tick + 2)
unfolding retry_payment claimed Orders.snapshot Orders.fulfilment_snapshot
    Orders.begin_payment_attempt Orders.apply OrderRows.apply OrderRows.get_by_id sql ◌>>=◌ pure
    raise attempt or_raise clock Orders.placed_of OrderRows.scan_order
retry_payment-refused env user order method w h =
    let none_taken = λ (at : ℕ).
      apply_rows-none at order to_payment_attempt w.db.orders
        (takes-awaits order w.db.orders ∙ h) in
    elim (Bool-cases (w.aborted || env.fault w.tick)) [
      | inl a ↦ rw a (refl, refl, omega arith)
      | inr a ↦ rw a (elim (Option-cases (find (OrderRows.has_id order) w.db.orders)) [
        | inl e ↦ rw e (refl, refl, omega arith)
        | inr (o, e) ↦ rw e (elim (Bool-cases (o.user_id == user)) [
          | inr other ↦ rw other (refl, refl, omega arith)
          | inl own ↦ rw own (elim (Bool-cases (w.aborted || env.fault (w.tick + 1))) [
            | inl b ↦ rw b (refl, refl, omega arith)
            | inr b ↦ rw (b, none_taken) (refl, refl, omega arith)
          ])
        ])
      ])
    ]
