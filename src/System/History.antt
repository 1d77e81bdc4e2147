-- ===== src/System/History.antt =====
-- How the status of an order can change over any requests.
use go_api_project_template.Prelude.{
  ℕ, ◌≡◌, refl, ap, ◌∙◌, subst, inl, inr, true, false, List, [], ◌∷◌, ◌++◌, map, arith, find,
  Option, some, none, Bool-cases,
}
use go_api_project_template.Prelude.Int.{ℤ}
use go_api_project_template.Database.{World}
use go_api_project_template.Order.Domain.{
  Status, Transition, Known, allows, known_awaiting_payment, known_payment_processing,
  known_payment_attempt, known_paid, known_processing, known_shipped, known_delivered,
  known_fulfillment_failed_after_charge, known_fulfillment_failed_compensating, known_cancelled,
  known_expired, known_refunded,
}
use go_api_project_template.Order.State.{successors}
use go_api_project_template.Order.Repository.{apply_rows, takes, has_id, set_totals, new_row}
use go_api_project_template.Schema.{OrderRow, Db, Env}
use go_api_project_template.System.Laws.{Laws}
use go_api_project_template.System.Requests.{Request, serve, serve-Of}

-- A way from one status to another along the graph of state_test.go.
pub data Way : Status → Status → Type 0 where
  stay : {s : Status} → Way s s
  step : {s u v : Status} → Way s u → allows (successors u) v ≡ true → Way s v

abbrev status_in : Option OrderRow → Option Status
status_in none = none
status_in (some r) = some r.status

-- The status of the order with a given key.
abbrev pub status_of : ℕ → List OrderRow → Option Status
status_of id os = status_in (find (has_id id) os)

-- The order is there, with a status that `s` leads to.
pub record Came (id : ℕ) (s : Status) (os : List OrderRow) : Type 0 where
  pub now : Status
  pub found : status_of id os ≡ some now
  pub path : Way s now

takes→allows :
    (id : ℕ) (t : Transition) (r : OrderRow) → takes id t r ≡ true → allows t.from r.status ≡ true
takes→allows id t r h = ground arith

transition-successor :
    {t : Transition}
    → Known t
    → (s : Status) → allows t.from s ≡ true
    → allows (successors s) t.to ≡ true
transition-successor known_awaiting_payment s h = ground arith
transition-successor known_payment_processing s h = ground arith
transition-successor known_payment_attempt s h = ground arith
transition-successor known_paid s h = ground arith
transition-successor known_processing s h = ground arith
transition-successor known_shipped s h = ground arith
transition-successor known_delivered s h = ground arith
transition-successor known_fulfillment_failed_after_charge s h = ground arith
transition-successor known_fulfillment_failed_compensating s h = ground arith
transition-successor known_cancelled s h = ground arith
transition-successor known_expired s h = ground arith
transition-successor known_refunded s h = ground arith

module _ (i : ℕ) (s : Status) where
  Came-head :
      (r : OrderRow) (rs : List OrderRow) → has_id i r ≡ true → Way s r.status → Came i s (r ∷ rs)
  Came-head r rs this p = record { now = r.status; found = rw this; path = p }

  Came-tail :
      (r : OrderRow) (rs : List OrderRow) → has_id i r ≡ false → Came i s rs → Came i s (r ∷ rs)
  Came-tail r rs other c = record { now = c.now; found = rw other c.found; path = c.path }

  -- What is known of the order in a list, by whether it is the first one.
  head-Way :
      (r : OrderRow) (rs : List OrderRow) {u : Status}
      → has_id i r ≡ true
      → status_of i (r ∷ rs) ≡ some u
      → Way s u
      → Way s r.status
  head-Way r rs {u} this e p = subst (Way s) (head_status u (rw this at e)) p
    where
      head_status : (u : Status) → some r.status ≡ some u → u ≡ r.status
      head_status u e = cc

  tail_found :
      (r : OrderRow) (rs : List OrderRow) {u : Status}
      → has_id i r ≡ false
      → status_of i (r ∷ rs) ≡ some u
      → status_of i rs ≡ some u
  tail_found r rs other e = ground arith

module _ {t : Transition} (k : Known t) (at id i : ℕ) (s : Status) where
  apply_rows-Came :
      (os : List OrderRow) {u : Status}
      → status_of i os ≡ some u
      → Way s u
      → Came i s (apply_rows at id t os).0
  unfolding apply_rows
  apply_rows-Came [] e p = cc
  apply_rows-Came (r ∷ rs) {u} e p = elim (Bool-cases (takes id t r)) [
    | inl took ↦ rw took (elim (Bool-cases (has_id i r)) [
      | inl this ↦ Came-head i s _ _ this (
          step (head-Way i s r rs this e p)
            (transition-successor k r.status (takes→allows id t r took)))
      | inr other ↦ Came-tail i s _ _ other (apply_rows-Came rs (tail_found i s r rs other e) p)
    ])
    | inr left ↦ rw left (elim (Bool-cases (has_id i r)) [
      | inl this ↦ Came-head i s _ _ this (head-Way i s r rs this e p)
      | inr other ↦ Came-tail i s _ _ other (apply_rows-Came rs (tail_found i s r rs other e) p)
    ])
  ]

set_totals-status :
    (at id i : ℕ) (discount total : ℤ) (os : List OrderRow)
    → status_of i (map (set_totals at id discount total) os) ≡ status_of i os
set_totals-status at id i discount total [] = refl
set_totals-status at id i discount total (r ∷ rs) =
    ground (arith, set_totals-status at id i discount total rs)

append-status :
    (i : ℕ) (n : OrderRow) (os : List OrderRow) {u : Status}
    → status_of i os ≡ some u
    → status_of i (os ++ n ∷ []) ≡ some u
append-status i n [] e = cc
append-status i n (r ∷ rs) {u} e = elim (Bool-cases (has_id i r)) [
  | inl this ↦ rw this (rw this at e)
  | inr other ↦ rw other (append-status i n rs (tail_found i Status.paid r rs other e))
]

history_laws : (i : ℕ) (s : Status) → Laws (λ os ps. Came i s os)
history_laws i s = record {
  apply = λ k at id os ps c. apply_rows-Came k at id i s os c.found c.path;
  totals = λ at id discount total os ps c. record {
    now = c.now;
    found = set_totals-status at id i discount total os ∙ c.found;
    path = c.path;
  };
  insert = λ id at o os ps e c. record {
    now = c.now;
    found = append-status i (new_row id at o) os c.found;
    path = c.path;
  };
  open_payment = λ id at p os ps e c. c;
  change = λ ch id os ps c. c;
  paid = λ at id os ps c. c;
  details = λ id f same same_id os ps c. c;
}

-- An order that is in the tables is still there after any requests, and its status has come along
-- the graph of state_test.go, whatever statements fail.
pub order_history :
    (env : Env) (rs : List Request) (w : World Db) (i : ℕ) (s : Status)
    → status_of i w.db.orders ≡ some s
    → Came i s (serve env rs w).db.orders
order_history env rs w i s e =
    serve-Of (history_laws i s) env rs w (record { now = s; found = e; path = stay })

-- No way leads out of refunded.
Way-refunded : {s u : Status} → Way s u → s ≡ Status.refunded → u ≡ Status.refunded
Way-refunded stay e = e
Way-refunded (step {u = u} {v = v} p a) e = refunded_last u v (Way-refunded p e) a
  where
    refunded_last :
        (u v : Status) → u ≡ Status.refunded → allows (successors u) v ≡ true → v ≡ Status.refunded
    refunded_last u v e a = ground arith

refunded_status :
    (i : ℕ) (os : List OrderRow) → Came i Status.refunded os → status_of i os ≡ some Status.refunded
refunded_status i os c = c.found ∙ ap some (Way-refunded c.path refl)

-- A refunded order stays refunded over any requests, whatever statements fail.
pub refunded_final :
    (env : Env) (rs : List Request) (w : World Db) (i : ℕ)
    → status_of i w.db.orders ≡ some Status.refunded
    → status_of i (serve env rs w).db.orders ≡ some Status.refunded
refunded_final env rs w i e =
    refunded_status i (serve env rs w).db.orders (order_history env rs w i Status.refunded e)
