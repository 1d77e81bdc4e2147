-- ===== src/Order/Service.antt =====
-- internal/features/order/service.go, all but `Place`: reading, the transitions, cancellation and
-- the two housekeeping jobs. What the program only logs is dropped. The coupon service is always
-- wired, so its nil checks are not modelled.
use go_api_project_template.Prelude.{
  ℕ, String, Bool, not, ◌&&◌, Option, none, some, List, [], ◌∷◌, ltb, ◌==◌, length, str_eq,
  if◌then◌else◌,
}
use go_api_project_template.Errs.{Err, Result, ok, err, is}
use go_api_project_template.Money.{Money}
use go_api_project_template.Database.{pure, raise, attempt, run_tx, ◌>>=◌, ◌>>◌}
use go_api_project_template.Inventory.Levels.{Quantities, set_quantity}
use go_api_project_template.Inventory.Repository.{deduct}
use go_api_project_template.Inventory.Service.{restore, stock_state_of}
use go_api_project_template.Promotion.Service as Coupons
use go_api_project_template.Order.Domain.{
  Status, same_status, Order, Item, Transition, allows, dispatched, to_awaiting_payment,
  to_payment_processing, to_payment_attempt, to_paid, to_processing, to_shipped, to_delivered,
  to_fulfillment_failed_after_charge, to_fulfillment_failed_compensating, to_cancelled, to_expired,
  to_refunded,
}
use go_api_project_template.Order.Repository as Repository
use go_api_project_template.Schema.{Env, Action}

pub record Snapshot : Type 0 where
  pub id : ℕ
  pub user_id : ℕ
  pub total : Money
  pub status : Status

pub record FulfilmentSnapshot : Type 0 where
  pub snapshot : Snapshot
  pub coupon_code : String
  pub stock_deducted : Bool
  pub stock_reversed : Bool
  pub dispatched_already : Bool

abbrev pub text_of : Option String → String
text_of none = ""
text_of (some c) = c

-- `code != nil && *code != ""`.
abbrev pub has_coupon : Option String → Bool
has_coupon code = not (str_eq (text_of code) "")

unfoldable pub placed_of : Order → Snapshot
placed_of o = record { id = o.id; user_id = o.user_id; total = o.total; status = o.status }

-- The map from products to quantities that the loops over items build: the last item of a product wins.
unfoldable pub quantities_from : Quantities → List Item → Quantities
quantities_from m [] = m
quantities_from m (i ∷ is) = quantities_from (set_quantity i.product_id i.quantity m) is

unfoldable pub quantities : List Item → Quantities
unfolding quantities_from
quantities is = quantities_from [] is

-- What an administrator may ask for in `ChangeStatus`: one of the statuses, or any other text.
pub data Requested : Type 0 where
  known_status : Status → Requested
  other_text : String → Requested

-- The `switch` of `ChangeStatus`.
unfoldable pub direct_transition : Requested → Option Transition
direct_transition (known_status Status.awaiting_payment) = some to_awaiting_payment
direct_transition (known_status Status.processing) = some to_processing
direct_transition (known_status Status.shipped) = some to_shipped
direct_transition (known_status Status.delivered) = some to_delivered
direct_transition r = none

-- `StaleProcessingThreshold`, fifteen minutes in seconds, and `housekeepingBatchLimit`.
abbrev pub stale_processing_threshold : ℕ
stale_processing_threshold = 900

abbrev pub housekeeping_batch_limit : ℕ
housekeeping_batch_limit = 20

module _ (env : Env) where
  unfoldable pub apply : ℕ → Transition → Action (Unit {0})
  apply id t = Repository.apply env id t

  unfoldable pub mark_payment_processing : ℕ → Action (Unit {0})
  mark_payment_processing id = apply id to_payment_processing

  unfoldable pub begin_payment_attempt : ℕ → Action (Unit {0})
  begin_payment_attempt id = apply id to_payment_attempt

  unfoldable pub mark_awaiting_payment : ℕ → Action (Unit {0})
  mark_awaiting_payment id = apply id to_awaiting_payment

  unfoldable pub mark_paid : ℕ → Action (Unit {0})
  mark_paid id = apply id to_paid

  unfoldable pub mark_fulfillment_failed_after_charge : ℕ → Action (Unit {0})
  mark_fulfillment_failed_after_charge id = apply id to_fulfillment_failed_after_charge

  unfoldable pub mark_fulfillment_failed_compensating : ℕ → Action (Unit {0})
  mark_fulfillment_failed_compensating id = apply id to_fulfillment_failed_compensating

  unfoldable pub mark_refunded : ℕ → Action (Unit {0})
  mark_refunded id = apply id to_refunded

  unfoldable pub mark_shipped : ℕ → Action (Unit {0})
  mark_shipped id = apply id to_shipped

  unfoldable pub mark_delivered : ℕ → Action (Unit {0})
  mark_delivered id = apply id to_delivered

  unfoldable pub get : ℕ → Action Order
  get id = do
    o ← Repository.get_by_id env id
    items ← Repository.list_items env id
    pure (record o { items = items })

  unfoldable pub get_for_user : ℕ → ℕ → Action Order
  get_for_user user id = do
    o ← Repository.get_by_id env id
    if not (o.user_id == user)
        then raise Err.not_found
        else do items ← Repository.list_items env id; pure (record o { items = items })

  unfoldable pub fulfilment_snapshot : ℕ → Action FulfilmentSnapshot
  fulfilment_snapshot id = do
    o ← Repository.get_by_id env id
    pure (record {
      snapshot = placed_of o;
      coupon_code = text_of o.coupon_code;
      stock_deducted = o.stock_deducted;
      stock_reversed = o.stock_reversed;
      dispatched_already = dispatched o;
    })

  unfoldable pub snapshot : ℕ → Action Snapshot
  snapshot id = do full ← fulfilment_snapshot id; pure full.snapshot

  unfoldable pub list_item_quantities : ℕ → Action Quantities
  list_item_quantities id = do items ← Repository.list_items env id; pure (quantities items)

  -- The stock part of a reversal: `what` is given back unless the snapshot says that it was.
  unfoldable pub restore_items : Order → List Item → Action (Unit {0})
  restore_items o items =
      if ltb 0 (length items) && not o.stock_reversed
      then restore env (quantities items) (stock_state_of o.stock_deducted)
      else pure tt

  -- The coupon part: an error is logged.
  unfoldable pub release_coupon : Order → Action (Unit {0})
  release_coupon o =
      if has_coupon o.coupon_code then (do attempt (Coupons.release env o.id); pure tt) else pure tt

  -- `releaseOrderHolds`, which is also the tail of `cancelWithReversal`.
  unfoldable pub release_order_holds : Order → Action (Unit {0})
  release_order_holds o = do
    items ← Repository.list_items env o.id
    restore_items o items
    release_coupon o

  -- An order that is in none of the statuses that a cancellation allows.
  unfoldable pub cancel_error : Result (Unit {0}) → Action (Unit {0})
  cancel_error (ok u) = pure tt
  cancel_error (err e) = if is e Err.conflict then raise Err.bad_request else raise e

  unfoldable pub cancel_body : Order → Action (Unit {0})
  cancel_body o = do
    applied ← attempt (apply o.id to_cancelled)
    cancel_error applied
    release_order_holds o

  unfoldable pub cancel_with_reversal : Order → Action (Unit {0})
  cancel_with_reversal o = run_tx env.fault (cancel_body o)

  unfoldable pub cancel_by_user : ℕ → ℕ → Action (Unit {0})
  cancel_by_user user id = do
    o ← Repository.get_by_id env id
    if not (o.user_id == user)
        then raise Err.not_found
        else if same_status o.status Status.payment_processing
        then raise Err.order_charging
        else cancel_with_reversal o

  unfoldable pub cancel_unpaid : ℕ → Action (Unit {0})
  cancel_unpaid id = do o ← Repository.get_by_id env id; cancel_with_reversal o

  unfoldable pub change_allowed : ℕ → Option Transition → Action (Unit {0})
  change_allowed id none = raise Err.bad_request
  change_allowed id (some t) = do
    o ← Repository.get_by_id env id
    if not (allows t.from o.status) then raise Err.bad_request else apply id t

  unfoldable pub change_status : ℕ → Requested → Action (Unit {0})
  change_status id r = change_allowed id (direct_transition r)

  -- An order that is no longer awaiting payment is left alone.
  unfoldable pub expire_applied : Order → Result (Unit {0}) → Action (Unit {0})
  expire_applied o (ok u) = release_order_holds o
  expire_applied o (err e) = if is e Err.conflict then pure tt else raise e

  unfoldable pub expire_body : Order → Action (Unit {0})
  expire_body o = do applied ← attempt (apply o.id to_expired); expire_applied o applied

  unfoldable pub expire_one : Order → Action (Unit {0})
  expire_one o = run_tx env.fault (expire_body o)

  unfoldable pub expire_each : List Order → Action (Unit {0})
  expire_each [] = pure tt
  expire_each (o ∷ os) = do attempt (expire_one o); expire_each os

  unfoldable pub expire_stale : Action (Unit {0})
  expire_stale = do
    orders ← Repository.get_expired_orders env housekeeping_batch_limit
    expire_each orders

  unfoldable pub recover_each : List Order → Action (Unit {0})
  recover_each [] = pure tt
  recover_each (o ∷ os) = do attempt (apply o.id to_awaiting_payment); recover_each os

  unfoldable pub recover_stale : Action (Unit {0})
  recover_stale = do
    orders ←
        Repository.get_stale_processing_orders env stale_processing_threshold
          housekeeping_batch_limit
    recover_each orders

  unfoldable pub finalize_body : Order → Action (Unit {0})
  finalize_body o = do apply o.id to_paid; deduct env (quantities o.items)

  unfoldable pub finalize_free_order : Order → Action (Unit {0})
  finalize_free_order o = run_tx env.fault (finalize_body o)
