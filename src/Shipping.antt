-- ===== src/Shipping.antt =====
-- internal/features/shipping: domain/shipment.go, adapter/postgres/repository.go and service.go.
use go_api_project_template.Prelude.{
  ℕ, suc, String, Bool, not, ◌||◌, none, some, [], ◌∷◌, ◌++◌, ◌==◌, find, exists, map, str_eq,
  if◌then◌else◌,
}
use go_api_project_template.Errs.{Err}
use go_api_project_template.Database.{
  Outcome, done, violation, sql, pure, raise, or_raise, run_tx, ◌>>=◌, ◌>>◌,
}
use go_api_project_template.Order.Domain.{Status, same_status}
use go_api_project_template.Order.Service as Orders
use go_api_project_template.Schema.{ShipmentStatus, Shipment, Db, Env, Action, clock}

unfoldable pub can_ship_order : Status → Bool
can_ship_order s = same_status s Status.paid || same_status s Status.processing

abbrev pub has_id : ℕ → Shipment → Bool
has_id id s = s.id == id

abbrev pub for_order : ℕ → Shipment → Bool
for_order order s = s.order_id == order

-- The unique constraint on the order of a shipment.
unfoldable pub insert_shipment : ℕ → ℕ → String → String → Db → Outcome Db Shipment
insert_shipment at order carrier tracking d =
    let s : Shipment = record {
      id = d.next_id;
      order_id = order;
      carrier = carrier;
      tracking_number = tracking;
      status = ShipmentStatus.shipped;
      shipped_at = some at;
      delivered_at = none;
    } in
    if exists (for_order order) d.shipments
    then violation Err.conflict
    else done s (record d { shipments = d.shipments ++ s ∷ []; next_id = suc d.next_id })

abbrev delivered_row : ℕ → ℕ → Shipment → Shipment
delivered_row at id s =
    if has_id id s
    then record s { status = ShipmentStatus.delivered; delivered_at = some at }
    else s

abbrev tracking_row : Shipment → Shipment → Shipment
tracking_row n s =
    if has_id n.id s
    then record s { carrier = n.carrier; tracking_number = n.tracking_number; status = n.status }
    else s

abbrev or_old : String → String → String
or_old new old = if str_eq new "" then old else new

module _ (env : Env) where
  unfoldable pub create_row : ℕ → String → String → Action Shipment
  create_row order carrier tracking = do
    at ← clock env
    sql env.fault (insert_shipment at order carrier tracking)

  unfoldable pub get_by_id : ℕ → Action Shipment
  get_by_id id = do
    row ← sql env.fault (λ (d : Db). done (find (has_id id) d.shipments) d)
    or_raise Err.not_found row

  unfoldable pub get_by_order_id : ℕ → Action Shipment
  get_by_order_id order = do
    row ← sql env.fault (λ (d : Db). done (find (for_order order) d.shipments) d)
    or_raise Err.not_found row

  -- The UPDATE has no condition on the status: a shipment can be delivered again.
  unfoldable pub mark_delivered : ℕ → Action Shipment
  mark_delivered id = do
    at ← clock env
    row ← sql env.fault (λ (d : Db).
        let rows = map (delivered_row at id) d.shipments in
        done (find (has_id id) rows) (record d { shipments = rows }))
    or_raise Err.not_found row

  unfoldable pub update_row : Shipment → Action (Unit {0})
  update_row s = do
    found ← sql env.fault (λ (d : Db).
        done (exists (has_id s.id) d.shipments)
          (record d { shipments = map (tracking_row s) d.shipments }))
    if found then pure tt else raise Err.not_found

  unfoldable pub create_body : ℕ → String → String → Action Shipment
  create_body order carrier tracking = do
    s ← create_row order carrier tracking
    Orders.mark_shipped env order
    pure s

  unfoldable pub create : ℕ → String → String → Action Shipment
  create order carrier tracking = do
    o ← Orders.snapshot env order
    if not (can_ship_order o.status)
        then raise Err.bad_request
        else run_tx env.fault (create_body order carrier tracking)

  unfoldable pub deliver_body : ℕ → ℕ → Action Shipment
  deliver_body id order = do s ← mark_delivered id; Orders.mark_delivered env order; pure s

  unfoldable pub deliver : ℕ → Action Shipment
  deliver id = do s ← get_by_id id; run_tx env.fault (deliver_body id s.order_id)

  unfoldable pub update_tracking : ℕ → String → String → Action Shipment
  update_tracking id carrier tracking = do
    s ← get_by_id id
    update_row (record s {
      carrier = or_old carrier s.carrier;
      tracking_number = or_old tracking s.tracking_number;
    })
    get_by_id id

  unfoldable pub get_for_user : ℕ → ℕ → Action Shipment
  get_for_user user order = do
    o ← Orders.snapshot env order
    if not (o.user_id == user) then raise Err.not_found else get_by_order_id order
