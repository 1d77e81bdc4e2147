-- ===== src/System/Flags.antt =====
-- The stock flags of every order agree with its status, after any requests.
use go_api_project_template.Prelude.{
  ℕ, ◌≡◌, inl, inr, true, List, [], ◌∷◌, map, arith, All, All-append, Bool-cases, if_elim,
}
use go_api_project_template.Prelude.Int.{ℤ}
use go_api_project_template.Database.{World}
use go_api_project_template.Order.Domain.{
  Status, Order, Transition, Known, known_awaiting_payment, known_payment_processing,
  known_payment_attempt, known_paid, known_processing, known_shipped, known_delivered,
  known_fulfillment_failed_after_charge, known_fulfillment_failed_compensating, known_cancelled,
  known_expired, known_refunded, allows,
}
use go_api_project_template.Order.State.{flags_agree}
use go_api_project_template.Order.Repository.{
  apply_rows, takes, transit, has_id, set_totals, new_row,
}
use go_api_project_template.Schema.{OrderRow, Db, Env}
use go_api_project_template.System.Laws.{Laws}
use go_api_project_template.System.Requests.{Request, serve, serve-Of}

abbrev pub RowAgrees : OrderRow → Type 0
RowAgrees r = flags_agree r.status r.stock_deducted r.stock_reversed ≡ true

abbrev pub FlagsAgree : Db → Type 0
FlagsAgree d = All RowAgrees d.orders

takes→allows :
    (id : ℕ) (t : Transition) (r : OrderRow) → takes id t r ≡ true → allows t.from r.status ≡ true
takes→allows id t r h = ground arith

transit-RowAgrees :
    {t : Transition}
    → Known t
    → (at : ℕ) (r : OrderRow) → RowAgrees r
    → allows t.from r.status ≡ true
    → RowAgrees (transit at t r)
transit-RowAgrees known_awaiting_payment at r h a = ground arith
transit-RowAgrees known_payment_processing at r h a = ground arith
transit-RowAgrees known_payment_attempt at r h a = ground arith
transit-RowAgrees known_paid at r h a = ground arith
transit-RowAgrees known_processing at r h a = ground arith
transit-RowAgrees known_shipped at r h a = ground arith
transit-RowAgrees known_delivered at r h a = ground arith
transit-RowAgrees known_fulfillment_failed_after_charge at r h a = ground arith
transit-RowAgrees known_fulfillment_failed_compensating at r h a = ground arith
transit-RowAgrees known_cancelled at r h a = ground arith
transit-RowAgrees known_expired at r h a = ground arith
transit-RowAgrees known_refunded at r h a = ground arith

module _ {t : Transition} (k : Known t) (at id : ℕ) where
  apply_rows-RowAgrees :
      (os : List OrderRow) → All RowAgrees os → All RowAgrees (apply_rows at id t os).0
  unfolding apply_rows
  apply_rows-RowAgrees [] h = tt
  apply_rows-RowAgrees (r ∷ rs) h = elim (Bool-cases (takes id t r)) [
    | inl e ↦
        rw e (transit-RowAgrees k at r h.0 (takes→allows id t r e), apply_rows-RowAgrees rs h.1)
    | inr e ↦ rw e (h.0, apply_rows-RowAgrees rs h.1)
  ]

set_totals-RowAgrees :
    (at id : ℕ) (discount total : ℤ) (os : List OrderRow)
    → All RowAgrees os
    → All RowAgrees (map (set_totals at id discount total) os)
set_totals-RowAgrees at id discount total [] h = tt
set_totals-RowAgrees at id discount total (r ∷ rs) h =
    (if_elim RowAgrees (has_id id r) _ r h.0 h.0, set_totals-RowAgrees at id discount total rs h.1)

new_row-RowAgrees :
    (id at : ℕ) (o : Order) → o.status ≡ Status.awaiting_payment → RowAgrees (new_row id at o)
new_row-RowAgrees id at o e = rw e

flags_laws : Laws (λ os ps. All RowAgrees os)
flags_laws = record {
  apply = λ k at id os ps h. apply_rows-RowAgrees k at id os h;
  totals = λ at id discount total os ps h. set_totals-RowAgrees at id discount total os h;
  insert = λ id at o os ps e h. All-append RowAgrees os _ h (new_row-RowAgrees id at o e, tt);
  open_payment = λ id at p os ps e h. h;
  change = λ c id os ps h. h;
  paid = λ at id os ps h. h;
  details = λ id f same same_id os ps h. h;
}

-- If in every order the stock flags agree with the status, they do so after any requests, whatever
-- statements fail: an order is paid, processing, shipped or delivered only with its stock deducted
-- and not reversed, cancelled, expired or refunded only with its stock reversed, and open only with
-- neither.
pub serve-FlagsAgree :
    (env : Env) (rs : List Request) (w : World Db)
    → FlagsAgree w.db
    → FlagsAgree (serve env rs w).db
serve-FlagsAgree env rs w h = serve-Of flags_laws env rs w h
