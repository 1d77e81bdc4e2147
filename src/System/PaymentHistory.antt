-- ===== src/System/PaymentHistory.antt =====
-- How the status of a payment can change over any requests.
use go_api_project_template.Prelude.{
  ℕ, ◌≡◌, refl, sym, subst, ◌⊎◌, inl, inr, Bool, true, false, List, [], ◌∷◌, ◌++◌, arith, find,
  Option, some, none, Bool-cases,
}
use go_api_project_template.Database.{World}
use go_api_project_template.Payment.Domain.{PaymentStatus, among}
use go_api_project_template.Payment.Repository.{
  rewrite, takes, with_status, as_paid, has_id, new_row,
}
use go_api_project_template.Payment.Finalize.{payable}
use go_api_project_template.Schema.{PaymentRow, Db, Env}
use go_api_project_template.System.Laws.{
  Laws, StatusChange, review_late, review_compensating, cancel_failed, refund_settled,
}
use go_api_project_template.System.Requests.{Request, serve, serve-Of}

-- The ways that the service's updates leave open, from each status to the next.
abbrev pub next_statuses : PaymentStatus → List PaymentStatus
next_statuses PaymentStatus.pending =
    PaymentStatus.success ∷ PaymentStatus.cancelled ∷ PaymentStatus.requires_review ∷ []
next_statuses PaymentStatus.processing =
    PaymentStatus.success ∷ PaymentStatus.cancelled ∷ PaymentStatus.requires_review ∷ []
next_statuses PaymentStatus.requires_review = PaymentStatus.success ∷ PaymentStatus.refunded ∷ []
next_statuses PaymentStatus.cancelled = PaymentStatus.success ∷ []
next_statuses PaymentStatus.success = PaymentStatus.requires_review ∷ PaymentStatus.refunded ∷ []
next_statuses PaymentStatus.failed = []
next_statuses PaymentStatus.refunded = []

pub data Way : PaymentStatus → PaymentStatus → Type 0 where
  stay : {s : PaymentStatus} → Way s s
  step : {s u v : PaymentStatus} → Way s u → among (next_statuses u) v ≡ true → Way s v

abbrev status_in : Option PaymentRow → Option PaymentStatus
status_in none = none
status_in (some r) = some r.status

-- The status of the payment with a given key.
abbrev pub status_of : ℕ → List PaymentRow → Option PaymentStatus
status_of id ps = status_in (find (has_id id) ps)

-- The payment is there, with a status that `s` leads to.
pub record Came (id : ℕ) (s : PaymentStatus) (ps : List PaymentRow) : Type 0 where
  pub now : PaymentStatus
  pub found : status_of id ps ≡ some now
  pub path : Way s now

-- What a rewriting of rows does to a status: nothing, or a step.
abbrev Moves : PaymentRow → PaymentRow → Type 0
Moves r r' =
    (r'.id ≡ r.id) × ((r'.status ≡ r.status) ⊎ (among (next_statuses r.status) r'.status ≡ true))

module _ (i : ℕ) (s : PaymentStatus) where
  moved-Way : (r r' : PaymentRow) → Moves r r' → Way s r.status → Way s r'.status
  moved-Way r r' (same, inl e) p = subst (Way s) (sym e) p
  moved-Way r r' (same, inr a) p = step p a

  Came-head :
      (r : PaymentRow) (rs : List PaymentRow)
      → has_id i r ≡ true
      → Way s r.status
      → Came i s (r ∷ rs)
  Came-head r rs this p = record { now = r.status; found = rw this; path = p }

  Came-tail :
      (r : PaymentRow) (rs : List PaymentRow) → has_id i r ≡ false → Came i s rs → Came i s (r ∷ rs)
  Came-tail r rs other c = record { now = c.now; found = rw other c.found; path = c.path }

  head-Way :
      (r : PaymentRow) (rs : List PaymentRow) {u : PaymentStatus}
      → has_id i r ≡ true
      → status_of i (r ∷ rs) ≡ some u
      → Way s u
      → Way s r.status
  head-Way r rs {u} this e p = subst (Way s) (head_status u (rw this at e)) p
    where
      head_status : (u : PaymentStatus) → some r.status ≡ some u → u ≡ r.status
      head_status u e = cc

  tail_found :
      (r : PaymentRow) (rs : List PaymentRow) {u : PaymentStatus}
      → has_id i r ≡ false
      → status_of i (r ∷ rs) ≡ some u
      → status_of i rs ≡ some u
  tail_found r rs other e = ground arith

  -- A row and what has become of it, before the rows that follow.
  moved-Came :
      (r r' : PaymentRow) (rs rs' : List PaymentRow) {u : PaymentStatus}
      → Moves r r'
      → (status_of i rs ≡ some u → Came i s rs')
      → status_of i (r ∷ rs) ≡ some u
      → Way s u
      → Came i s (r' ∷ rs')
  moved-Came r r' rs rs' {u} moves rest e p = elim (Bool-cases (has_id i r)) [
    | inl this ↦ Came-head r' rs' (same_id this) (moved-Way r r' moves (head-Way r rs this e p))
    | inr other ↦ Came-tail r' rs' (same_id other) (rest (tail_found r rs other e))
  ]
    where
      same_id : {b : Bool} → has_id i r ≡ b → has_id i r' ≡ b
      same_id h = rw (moves.0, h)

  module _ (test : PaymentRow → Bool) (f : PaymentRow → PaymentRow) where
    rewrite-Came :
        ((r : PaymentRow) → test r ≡ true → Moves r (f r))
        → (ps : List PaymentRow) {u : PaymentStatus} → status_of i ps ≡ some u
        → Way s u
        → Came i s (rewrite test f ps)
    rewrite-Came m [] e p = cc
    rewrite-Came m (r ∷ rs) {u} e p = elim (Bool-cases (test r)) [
      | inl h ↦
          rw h
            (moved-Came r (f r) rs (rewrite test f rs) (m r h) (λ e'. rewrite-Came m rs e' p) e p)
      | inr h ↦ rw h (
          moved-Came r r rs (rewrite test f rs) (refl, inl refl) (λ e'. rewrite-Came m rs e' p) e p)
    ]

append-status :
    (i : ℕ) (n : PaymentRow) (ps : List PaymentRow) {u : PaymentStatus}
    → status_of i ps ≡ some u
    → status_of i (ps ++ n ∷ []) ≡ some u
append-status i n [] e = cc
append-status i n (r ∷ rs) {u} e = elim (Bool-cases (has_id i r)) [
  | inl this ↦ rw this (rw this at e)
  | inr other ↦ rw other (append-status i n rs (tail_found i PaymentStatus.pending r rs other e))
]

change-Moves :
    {to : PaymentStatus} {from : List PaymentStatus}
    → StatusChange to from
    → (id : ℕ) (r : PaymentRow) → takes id from r ≡ true
    → Moves r (with_status to r)
change-Moves review_late id r h = (refl, ground arith)
change-Moves review_compensating id r h = (refl, ground arith)
change-Moves cancel_failed id r h = (refl, ground arith)
change-Moves refund_settled id r h = (refl, ground arith)

paid-Moves : (at id : ℕ) (r : PaymentRow) → takes id payable r ≡ true → Moves r (as_paid at r)
paid-Moves at id r h = (refl, ground arith)

history_laws : (i : ℕ) (s : PaymentStatus) → Laws (λ os ps. Came i s ps)
history_laws i s = record {
  apply = λ k at id os ps c. c;
  totals = λ at id discount total os ps c. c;
  insert = λ id at o os ps e c. c;
  open_payment = λ id at p os ps e c. record {
    now = c.now;
    found = append-status i (new_row id at p) ps c.found;
    path = c.path;
  };
  change = λ ch id os ps c. rewrite-Came i s _ _ (change-Moves ch id) ps c.found c.path;
  paid = λ at id os ps c. rewrite-Came i s _ _ (paid-Moves at id) ps c.found c.path;
  details = λ id f same same_id os ps c.
      rewrite-Came i s _ f (λ r h. (same_id r, inl (same r))) ps c.found c.path;
}

-- A payment that is in the tables is still there after any requests, and its status has come along
-- the graph `next_statuses`, whatever statements fail: no way leads back to pending or processing, and
-- failed and refunded are final.
pub payment_history :
    (env : Env) (rs : List Request) (w : World Db) (i : ℕ) (s : PaymentStatus)
    → status_of i w.db.payments ≡ some s
    → Came i s (serve env rs w).db.payments
payment_history env rs w i s e =
    serve-Of (history_laws i s) env rs w (record { now = s; found = e; path = stay })
