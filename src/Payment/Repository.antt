-- ===== src/Payment/Repository.antt =====
-- internal/features/payment/adapter/postgres/repository.go and adapter/jobs/job_queue.go: each
-- method is one statement.
use go_api_project_template.Prelude.{
  ℕ, suc, String, Bool, false, not, ◌&&◌, ◌||◌, Option, none, some, List, [], ◌∷◌, ◌++◌, ltb, ◌==◌,
  find, exists, str_eq, if◌then◌else◌,
}
use go_api_project_template.Prelude.Int.{pos, ltb_ℤ}
use go_api_project_template.Errs.{Err}
use go_api_project_template.Money
use go_api_project_template.Database.{
  Outcome, done, violation, sql, pure, raise, or_raise, ◌>>=◌, ◌>>◌,
}
use go_api_project_template.Payment.Domain.{Payment, PaymentStatus, among}
use go_api_project_template.Payment.Gateway.{GatewayChargeResponse}
use go_api_project_template.Schema.{PaymentRow, Db, Env, Action, clock}

unfoldable pub nil_if_empty : String → Option String
nil_if_empty s = if str_eq s "" then none else some s

abbrev or_empty : Option String → String
or_empty none = ""
or_empty (some s) = s

unfoldable pub scan_payment : PaymentRow → Payment
unfolding Money.new
scan_payment r = record {
  id = r.id;
  order_id = r.order_id;
  amount = Money.new r.amount r.currency;
  status = r.status;
  payment_method_id = or_empty r.payment_method_id;
  payment_url = or_empty r.payment_url;
  gateway_txn_id = or_empty r.gateway_txn_id;
  paid_at = r.paid_at;
}

abbrev pub has_id : ℕ → PaymentRow → Bool
has_id id r = r.id == id

-- The statuses of the unique index on active payments, and of `GetActiveByOrderID`.
abbrev pub active_statuses : List PaymentStatus
active_statuses =
    PaymentStatus.pending ∷ PaymentStatus.processing ∷ PaymentStatus.requires_review ∷ []

abbrev pub active_for : ℕ → PaymentRow → Bool
active_for order r = r.order_id == order && among active_statuses r.status

-- The newest of the rows that pass the test.
abbrev newer : Option PaymentRow → PaymentRow → Option PaymentRow
newer none r = some r
newer (some s) r = if ltb s.created_at r.created_at then some r else some s

abbrev newest : (PaymentRow → Bool) → List PaymentRow → Option PaymentRow → Option PaymentRow
newest p [] best = best
newest p (r ∷ rs) best = newest p rs (if p r then newer best r else best)

abbrev pub new_row : ℕ → ℕ → Payment → PaymentRow
new_row id at p = record {
  id = id;
  order_id = p.order_id;
  amount = p.amount.amount;
  currency = p.amount.currency;
  status = p.status;
  payment_method_id = nil_if_empty p.payment_method_id;
  payment_url = nil_if_empty p.payment_url;
  gateway_txn_id = nil_if_empty p.gateway_txn_id;
  gateway_response = none;
  paid_at = none;
  created_at = at;
}

-- CHECK (amount >= 0) and the unique index; the repository tells no violation apart.
unfoldable pub insert_payment : ℕ → Payment → Db → Outcome Db ℕ
insert_payment at p d =
    if ltb_ℤ p.amount.amount (pos 0)
      || (among active_statuses p.status && exists (active_for p.order_id) d.payments)
    then violation Err.internal
    else done d.next_id
        (record d { payments = d.payments ++ new_row d.next_id at p ∷ []; next_id = suc d.next_id })

-- `WHERE id = $ AND status = ANY($)`.
abbrev pub takes : ℕ → List PaymentStatus → PaymentRow → Bool
takes id from r = has_id id r && among from r.status

abbrev pub rewrite :
    (PaymentRow → Bool) → (PaymentRow → PaymentRow) → List PaymentRow → List PaymentRow
rewrite p f [] = []
rewrite p f (r ∷ rs) = if p r then f r ∷ rewrite p f rs else r ∷ rewrite p f rs

-- Another active payment of the same order, which the unique index would see.
abbrev rival : PaymentRow → PaymentRow → Bool
rival r s = not (s.id == r.id) && active_for r.order_id s

abbrev clashes : List PaymentStatus → PaymentStatus → Option PaymentRow → List PaymentRow → Bool
clashes from to none rs = false
clashes from to (some r) rs = among from r.status && among active_statuses to && exists (rival r) rs

abbrev pub with_status : PaymentStatus → PaymentRow → PaymentRow
with_status to r = record r { status = to }

unfoldable pub write_status : ℕ → PaymentStatus → List PaymentStatus → Db → Outcome Db Bool
write_status id to from d =
    if clashes from to (find (has_id id) d.payments) d.payments
    then violation Err.internal
    else done (exists (takes id from) d.payments)
        (record d { payments = rewrite (takes id from) (with_status to) d.payments })

abbrev pub as_paid : ℕ → PaymentRow → PaymentRow
as_paid at r = record r { status = PaymentStatus.success; paid_at = some at }

unfoldable pub write_paid : ℕ → ℕ → List PaymentStatus → Db → Outcome Db Bool
write_paid at id from d =
    done (exists (takes id from) d.payments)
      (record d { payments = rewrite (takes id from) (as_paid at) d.payments })

abbrev pub with_gateway : String → GatewayChargeResponse → PaymentRow → PaymentRow
with_gateway txn resp r = record r { gateway_txn_id = some txn; gateway_response = some resp }

abbrev pub with_url : Option String → PaymentRow → PaymentRow
with_url url r = record r { payment_url = url }

-- An update of columns that hold no status.
unfoldable pub write_row : ℕ → (PaymentRow → PaymentRow) → Db → Outcome Db (Unit {0})
write_row id f d = done tt (record d { payments = rewrite (has_id id) f d.payments })

abbrev has_txn_of : String → Option String → Bool
has_txn_of txn none = false
has_txn_of txn (some t) = str_eq t txn

abbrev has_txn : String → PaymentRow → Bool
has_txn txn r = has_txn_of txn r.gateway_txn_id

module _ (env : Env) where
  unfoldable pub create : Payment → Action Payment
  create p = do
    at ← clock env
    id ← sql env.fault (insert_payment at p)
    pure (record p { id = id })

  unfoldable pub get_by_id : ℕ → Action Payment
  get_by_id id = do
    row ← sql env.fault (λ (d : Db). done (find (has_id id) d.payments) d)
    r ← or_raise Err.not_found row
    pure (scan_payment r)

  unfoldable pub get_active_by_order_id : ℕ → Action Payment
  get_active_by_order_id order = do
    row ← sql env.fault (λ (d : Db). done (newest (active_for order) d.payments none) d)
    r ← or_raise Err.not_found row
    pure (scan_payment r)

  unfoldable pub get_by_gateway_txn_id : String → Action Payment
  get_by_gateway_txn_id txn = do
    row ← sql env.fault (λ (d : Db). done (find (has_txn txn) d.payments) d)
    r ← or_raise Err.not_found row
    pure (scan_payment r)

  unfoldable pub update_status : ℕ → PaymentStatus → List PaymentStatus → Action (Unit {0})
  update_status id to from = do
    found ← sql env.fault (write_status id to from)
    if found then pure tt else raise Err.conflict

  unfoldable pub mark_paid : ℕ → List PaymentStatus → Action (Unit {0})
  mark_paid id from = do
    at ← clock env
    found ← sql env.fault (write_paid at id from)
    if found then pure tt else raise Err.conflict

  unfoldable pub update_gateway : ℕ → String → GatewayChargeResponse → Action (Unit {0})
  update_gateway id txn resp = sql env.fault (write_row id (with_gateway txn resp))

  unfoldable pub update_payment_url : ℕ → String → Action (Unit {0})
  update_payment_url id url = sql env.fault (write_row id (with_url (some url)))

  unfoldable pub clear_payment_url : ℕ → Action (Unit {0})
  clear_payment_url id = sql env.fault (write_row id (with_url none))

  unfoldable pub enqueue_refund : ℕ → ℕ → Action (Unit {0})
  enqueue_refund payment order = sql env.fault (λ (d : Db). done tt (record d {
    refund_jobs =
        env.insert_refund_job (record { payment_id = payment; order_id = order }) d.refund_jobs;
  }))

  -- One call of `JobCancel` for each job, up to the first that fails.
  unfoldable pub cancel_jobs : List ℕ → Action (Unit {0})
  cancel_jobs [] = pure tt
  cancel_jobs (id ∷ ids) = do
    sql env.fault
        (λ (d : Db). done tt (record d { refund_jobs = env.cancel_refund_job id d.refund_jobs }))
    cancel_jobs ids

  unfoldable pub cancel_pending_for_order : ℕ → Action (Unit {0})
  cancel_pending_for_order order = do
    ids ← sql env.fault (λ (d : Db). done (env.list_refund_jobs order d.refund_jobs) d)
    cancel_jobs ids
