-- ===== src/Payment/FinalizeSteps.antt =====
-- The statements of `FinalizeSuccess` of internal/features/payment/service.go, one by one, where they
-- do not fail.
use go_api_project_template.Prelude.{
  ℕ, ◌+◌, ◌≡◌, refl, inl, inr, true, false, not, some, List, [], ◌∷◌, find, exists, ◌==◌,
  if◌then◌else◌, arith, Bool-cases,
}
use go_api_project_template.Errs.{Err, Result, ok, err}
use go_api_project_template.Database.{World, pure, attempt, or_raise, sql, ◌>>=◌}
use go_api_project_template.Inventory.Levels.{
  Level, Quantities, update_levels, deducting, set_quantity, fits,
}
use go_api_project_template.Inventory.Counts.{one_row_each, one_entry_each, all_served}
use go_api_project_template.Inventory.Batches as Batches
use go_api_project_template.Inventory.Repository.{deduct}
use go_api_project_template.Order.Domain.{Transition, to_paid, Item}
use go_api_project_template.Order.Repository as OrderRows
use go_api_project_template.Order.Service as Orders
use go_api_project_template.Order.Pricing.{set_quantity-one_entry_each}
use go_api_project_template.Payment.Repository as Payments
use go_api_project_template.Payment.Finalize.{payable}
use go_api_project_template.Schema.{OrderRow, PaymentRow, Db, Env, clock}

quantities_from-one_entry_each :
    (m : Quantities) (is : List Item)
    → one_entry_each m ≡ true
    → one_entry_each (Orders.quantities_from m is) ≡ true
unfolding Orders.quantities_from
quantities_from-one_entry_each m [] h = h
quantities_from-one_entry_each m (i ∷ is) h =
    quantities_from-one_entry_each (set_quantity i.product_id i.quantity m) is
      (set_quantity-one_entry_each i.product_id i.quantity m h)

pub quantities-one_entry_each : (is : List Item) → one_entry_each (Orders.quantities is) ≡ true
unfolding Orders.quantities
quantities-one_entry_each is = quantities_from-one_entry_each [] is refl

update_levels-none : (ls : List Level) → (update_levels deducting [] ls).0 ≡ ls
unfolding update_levels
update_levels-none [] = refl
update_levels-none (l ∷ ls) = rw (update_levels-none ls) refl

-- The update finds a row to write exactly where some row can take the transition.
apply_rows-found :
    (at id : ℕ) (t : Transition) (os : List OrderRow)
    → ((OrderRows.apply_rows at id t os).1 == 0) ≡ not (exists (OrderRows.takes id t) os)
unfolding OrderRows.apply_rows
apply_rows-found at id t [] = refl
apply_rows-found at id t (r ∷ rs) = elim (Bool-cases (OrderRows.takes id t r)) [
  | inl took ↦ rw took (ground arith)
  | inr left ↦ rw left (apply_rows-found at id t rs)
]

abbrev pub deducted : Quantities → Db → Db
deducted q d = record d { levels = (update_levels deducting q d.levels).0 }

abbrev pub verdict : Quantities → Db → Result (Unit {0})
verdict q d = if all_served deducting d.levels q then ok tt else err Err.bad_request

none_deducted :
    (env : Env) (w : World Db)
    → deduct env [] w ≡ (verdict [] w.db, record w { db = deducted [] w.db })
unfolding deduct pure
none_deducted env w = rw (update_levels-none w.db.levels) refl

-- A deduction without failing statements.
pub deduct_eq :
    (env : Env) (q : Quantities) (w : World Db)
    → ((n : ℕ) → env.fault n ≡ false)
    → w.aborted ≡ false
    → one_row_each w.db.levels ≡ true
    → one_entry_each q ≡ true
    → fits (update_levels deducting q w.db.levels).0 ≡ true
    → (t : ℕ) × (deduct env q w ≡ (verdict q w.db, record w { db = deducted q w.db; tick = t }))
deduct_eq env [] w calm a k d f = (w.tick, none_deducted env w)
deduct_eq env (i ∷ items) w calm a k d f = (
  w.tick + 1 + 1,
  Batches.deduct_eq env i items w
      (record { healthy = a; first = calm w.tick; second = calm (w.tick + 1) }) k d f,
)

-- The tables with the payment and the order marked as paid, at two times.
abbrev pub marked : ℕ → ℕ → ℕ → ℕ → Db → Db
marked at at' payment order d = record d {
  payments = Payments.rewrite (Payments.takes payment payable) (Payments.as_paid at) d.payments;
  orders = (OrderRows.apply_rows at' order to_paid d.orders).0;
}

-- The quantities of the order's items.
abbrev pub to_deduct : ℕ → Db → Quantities
to_deduct order d =
    Orders.quantities
      (OrderRows.join_items order (find (OrderRows.has_id order) d.orders) d.order_items)

module _ (env : Env) (w : World Db) (healthy : w.aborted ≡ false)
    (fine : env.fault w.tick ≡ false) where
  pub snapshot_run :
      (order : ℕ) (o : OrderRow)
      → find (OrderRows.has_id order) w.db.orders ≡ some o
      → Orders.snapshot env order w
        ≡ (ok (Orders.placed_of (OrderRows.scan_order o)), record w { tick = w.tick + 1 })
  unfolding Orders.snapshot Orders.fulfilment_snapshot OrderRows.get_by_id sql ◌>>=◌ pure or_raise
  snapshot_run order o e = rw (healthy, fine, e) refl

  pub get_by_id_run :
      (payment : ℕ) (p : PaymentRow)
      → find (Payments.has_id payment) w.db.payments ≡ some p
      → Payments.get_by_id env payment w
        ≡ (ok (Payments.scan_payment p), record w { tick = w.tick + 1 })
  unfolding Payments.get_by_id sql ◌>>=◌ pure or_raise
  get_by_id_run payment p e = rw (healthy, fine, e) refl

  pub mark_paid_run :
      (payment : ℕ)
      → exists (Payments.takes payment payable) w.db.payments ≡ true
      → attempt (Payments.mark_paid env payment payable) w ≡ (
        ok (ok tt),
        record w {
          db = record w.db {
            payments =
                Payments.rewrite
                  (Payments.takes payment payable)
                  (Payments.as_paid (env.now w.tick))
                  w.db.payments;
          };
          tick = w.tick + 1;
        },
      )
  unfolding Payments.mark_paid Payments.write_paid sql ◌>>=◌ pure attempt clock
  mark_paid_run payment e = rw (healthy, fine, e) refl

  pub order_paid_run :
      (order : ℕ)
      → exists (OrderRows.takes order to_paid) w.db.orders ≡ true
      → attempt (Orders.mark_paid env order) w ≡ (
        ok (ok tt),
        record w {
          db = record w.db {
            orders = (OrderRows.apply_rows (env.now w.tick) order to_paid w.db.orders).0;
          };
          tick = w.tick + 1;
        },
      )
  unfolding Orders.mark_paid Orders.apply OrderRows.apply sql ◌>>=◌ pure attempt clock
  order_paid_run order e =
      let found = apply_rows-found (env.now w.tick) order to_paid w.db.orders in
      rw (healthy, fine, found, e) refl

  pub items_run :
      (order : ℕ)
      → Orders.list_item_quantities env order w
        ≡ (ok (to_deduct order w.db), record w { tick = w.tick + 1 })
  unfolding Orders.list_item_quantities OrderRows.list_items sql ◌>>=◌ pure
  items_run order = rw (healthy, fine) refl
