-- ===== src/Order/Repository.antt =====
-- internal/features/order/adapter/postgres/repository.go: each method is one statement.
use go_api_project_template.Prelude.{
  ℕ, zero, suc, ◌+◌, String, Bool, true, false, not, ◌&&◌, ◌||◌, Option, none, some, List, [], ◌∷◌,
  ◌++◌, map, ltb, leb, ◌==◌, length, find, exists, str_eq, if◌then◌else◌,
}
use go_api_project_template.Prelude.Int.{ℤ, pos, ltb_ℤ}
use go_api_project_template.Errs.{Err}
use go_api_project_template.Money
use go_api_project_template.Database.{Outcome, done, violation, sql, pure, raise, or_raise, ◌>>=◌}
use go_api_project_template.Order.Domain.{
  Status, same_status, Order, Item, Transition, allows, deducts_stock, reverses_stock,
}
use go_api_project_template.Inventory.Levels.{int_max}
use go_api_project_template.Schema.{OrderRow, ItemRow, Db, Env, Action, clock}

-- `scanOrder` with `amountColumns.assignTo`.
unfoldable pub scan_order : OrderRow → Order
unfolding Money.new
scan_order r = record {
  id = r.id;
  user_id = r.user_id;
  idempotency_key = r.idempotency_key;
  request_hash = r.request_hash;
  status = r.status;
  subtotal = Money.new r.subtotal_amount r.currency;
  discount = Money.new r.discount_amount r.currency;
  total = Money.new r.total_amount r.currency;
  coupon_code = r.coupon_code;
  shipping_address = r.shipping_address;
  billing_address = r.billing_address;
  notes = r.notes;
  stock_deducted = r.stock_deducted;
  stock_reversed = r.stock_reversed;
  items = [];
}

abbrev pub has_id : ℕ → OrderRow → Bool
has_id id r = r.id == id

-- The CHECK constraints on the amounts of an order.
abbrev amounts_ok : ℤ → ℤ → ℤ → Bool
amounts_ok subtotal discount total =
    not (ltb_ℤ subtotal (pos 0))
    && not (ltb_ℤ total (pos 0))
    && not (ltb_ℤ discount (pos 0))
    && not (ltb_ℤ subtotal discount)

-- The unique index on the user and the idempotency key.
abbrev pub same_key : ℕ → String → OrderRow → Bool
same_key user key r = r.user_id == user && str_eq r.idempotency_key key

-- `UPDATE ... WHERE id = $2 AND status = ANY($3)` on one row; `at` is the time of the update.
abbrev pub transit : ℕ → Transition → OrderRow → OrderRow
transit at t r = record r {
  status = t.to;
  stock_deducted = r.stock_deducted || deducts_stock t;
  stock_reversed = r.stock_reversed || reverses_stock t;
  updated_at = at;
}

abbrev pub takes : ℕ → Transition → OrderRow → Bool
takes id t r = has_id id r && allows t.from r.status

-- The rows after the update, and how many it wrote.
unfoldable pub apply_rows : ℕ → ℕ → Transition → List OrderRow → List OrderRow × ℕ
apply_rows at id t [] = ([], 0)
apply_rows at id t (r ∷ rs) =
    let (rs', n) = apply_rows at id t rs in
    if takes id t r then (transit at t r ∷ rs', suc n) else (r ∷ rs', n)

abbrev pub set_totals : ℕ → ℕ → ℤ → ℤ → OrderRow → OrderRow
set_totals at id discount total r =
    if has_id id r
    then record r { discount_amount = discount; total_amount = total; updated_at = at }
    else r

-- The rows of the INSERT, numbered from the next key.
abbrev item_rows : ℕ → List Item → List ItemRow
item_rows n [] = []
item_rows n (i ∷ is) =
    (record {
      id = n;
      order_id = i.order_id;
      product_id = i.product_id;
      product_name = i.product_name;
      price = i.price.amount;
      quantity = i.quantity;
      subtotal = i.subtotal.amount;
    })
    ∷ item_rows (suc n) is

-- The INT column of the quantity, CHECK (quantity > 0) and CHECK (subtotal >= 0) of order_items.
abbrev items_ok : List Item → Bool
items_ok [] = true
items_ok (i ∷ is) =
    ltb 0 i.quantity
    && leb i.quantity int_max
    && not (ltb_ℤ i.subtotal.amount (pos 0))
    && items_ok is

abbrev of_order : ℕ → List ItemRow → List ItemRow
of_order id [] = []
of_order id (i ∷ is) = if i.order_id == id then i ∷ of_order id is else of_order id is

unfoldable pub scan_item : String → ItemRow → Item
unfolding Money.new
scan_item currency i = record {
  id = i.id;
  order_id = i.order_id;
  product_id = i.product_id;
  product_name = i.product_name;
  price = Money.new i.price currency;
  quantity = i.quantity;
  subtotal = Money.new i.subtotal currency;
}

-- The join of an order's items with the order's currency.
abbrev pub join_items : ℕ → Option OrderRow → List ItemRow → List Item
join_items id none is = []
join_items id (some o) is = map (scan_item o.currency) (of_order id is)

-- The row that the INSERT of `Create` makes.
abbrev pub new_row : ℕ → ℕ → Order → OrderRow
new_row id at o = record {
  id = id;
  user_id = o.user_id;
  idempotency_key = o.idempotency_key;
  request_hash = o.request_hash;
  status = o.status;
  subtotal_amount = o.subtotal.amount;
  discount_amount = o.discount.amount;
  total_amount = o.total.amount;
  coupon_code = o.coupon_code;
  currency = o.total.currency;
  shipping_address = o.shipping_address;
  billing_address = o.billing_address;
  notes = o.notes;
  stock_deducted = false;
  stock_reversed = false;
  created_at = at;
  updated_at = at;
}

unfoldable pub insert_order : ℕ → Order → Db → Outcome Db ℕ
insert_order at o d =
    if not (amounts_ok o.subtotal.amount o.discount.amount o.total.amount)
    then violation Err.internal
    else if exists (same_key o.user_id o.idempotency_key) d.orders
    then violation Err.conflict
    else done d.next_id
        (record d { orders = d.orders ++ new_row d.next_id at o ∷ []; next_id = suc d.next_id })

-- The items with the keys that the INSERT returns.
abbrev number_items : ℕ → List Item → List Item
number_items n [] = []
number_items n (i ∷ is) = record i { id = n } ∷ number_items (suc n) is

unfoldable pub insert_items : List Item → Db → Outcome Db (List Item)
insert_items is d =
    if items_ok is
    then done (number_items d.next_id is) (record d {
      order_items = d.order_items ++ item_rows d.next_id is;
      next_id = d.next_id + length is;
    })
    else violation Err.internal

abbrev totals_ok : ℤ → ℤ → Option OrderRow → Bool
totals_ok discount total none = true
totals_ok discount total (some r) = amounts_ok r.subtotal_amount discount total

-- The update of `UpdateTotals`: whether it wrote a row.
unfoldable pub write_totals : ℕ → ℕ → ℤ → ℤ → Db → Outcome Db Bool
write_totals at id discount total d =
    if totals_ok discount total (find (has_id id) d.orders)
    then done (exists (has_id id) d.orders)
        (record d { orders = map (set_totals at id discount total) d.orders })
    else violation Err.internal

abbrev pub take : {A : Type 0} → ℕ → List A → List A
take zero xs = []
take (suc n) [] = []
take (suc n) (x ∷ xs) = x ∷ take n xs

abbrev insert_by : (OrderRow → ℕ) → OrderRow → List OrderRow → List OrderRow
insert_by key r [] = r ∷ []
insert_by key r (s ∷ ss) = if leb (key r) (key s) then r ∷ s ∷ ss else s ∷ insert_by key r ss

-- `WHERE ... ORDER BY key`.
abbrev pub select_by : (OrderRow → Bool) → (OrderRow → ℕ) → List OrderRow → List OrderRow
select_by p key [] = []
select_by p key (r ∷ rs) =
    let rest = select_by p key rs in if p r then insert_by key r rest else rest

-- Thirty minutes, in seconds, and `created_at < NOW() - INTERVAL '30 minutes'`.
abbrev pub overdue : ℕ → OrderRow → Bool
overdue now r = same_status r.status Status.awaiting_payment && ltb (r.created_at + 1800) now

abbrev pub stale : ℕ → ℕ → OrderRow → Bool
stale now threshold r =
    same_status r.status Status.payment_processing && ltb (r.updated_at + threshold) now

module _ (env : Env) where
  unfoldable pub get_by_id : ℕ → Action Order
  get_by_id id = do
    row ← sql env.fault (λ (d : Db). done (find (has_id id) d.orders) d)
    r ← or_raise Err.not_found row
    pure (scan_order r)

  unfoldable pub get_by_key : ℕ → String → Action Order
  get_by_key user key = do
    row ← sql env.fault (λ (d : Db). done (find (same_key user key) d.orders) d)
    r ← or_raise Err.not_found row
    pure (scan_order r)

  unfoldable pub list_items : ℕ → Action (List Item)
  list_items id =
      sql env.fault (λ (d : Db). done (join_items id (find (has_id id) d.orders) d.order_items) d)

  -- `Create`: the order with the key that the database drew.
  unfoldable pub create : Order → Action Order
  create o = do at ← clock env; id ← sql env.fault (insert_order at o); pure (record o { id = id })

  unfoldable pub create_items : List Item → Action (List Item)
  create_items [] = pure []
  create_items (i ∷ is) = sql env.fault (insert_items (i ∷ is))

  unfoldable pub update_totals : ℕ → ℤ → ℤ → Action (Unit {0})
  update_totals id discount total = do
    at ← clock env
    found ← sql env.fault (write_totals at id discount total)
    if found then pure tt else raise Err.not_found

  unfoldable pub get_expired_orders : ℕ → Action (List Order)
  get_expired_orders limit = do
    now ← clock env
    rows ←
        sql env.fault
          (λ (d : Db). done (take limit (select_by (overdue now) (λ r. r.created_at) d.orders)) d)
    pure (map scan_order rows)

  unfoldable pub get_stale_processing_orders : ℕ → ℕ → Action (List Order)
  get_stale_processing_orders threshold limit = do
    now ← clock env
    rows ← sql env.fault (λ (d : Db).
        done (take limit (select_by (stale now threshold) (λ r. r.updated_at) d.orders)) d)
    pure (map scan_order rows)

  -- `Apply`: the transition where the status allows it, else a conflict.
  unfoldable pub apply : ℕ → Transition → Action (Unit {0})
  apply id t = do
    at ← clock env
    n ← sql env.fault (λ (d : Db).
        let (rows, n) = apply_rows at id t d.orders in done n (record d { orders = rows }))
    if n == 0 then raise Err.conflict else pure tt
