-- ===== src/Order/Domain.antt =====
-- internal/features/order/domain/order.go and state.go: the order, its statuses, and the table of
-- transitions. `uuid.UUID` and `time.Time` are numbers that are only compared.
use go_api_project_template.Prelude.{
  ℕ, String, Bool, ◌||◌, Option, List, [], ◌∷◌, ◌==◌, contains, map,
}
use go_api_project_template.Money.{Money}

pub data Status : Type 0 where
  awaiting_payment payment_processing paid processing shipped delivered : Status
  cancelled expired refunded fulfillment_failed : Status

abbrev pub rank : Status → ℕ
rank Status.awaiting_payment = 0
rank Status.payment_processing = 1
rank Status.paid = 2
rank Status.processing = 3
rank Status.shipped = 4
rank Status.delivered = 5
rank Status.cancelled = 6
rank Status.expired = 7
rank Status.refunded = 8
rank Status.fulfillment_failed = 9

-- `==` on statuses.
abbrev pub same_status : Status → Status → Bool
same_status s t = rank s == rank t

pub record Address : Type 0 where
  pub street : String
  pub city : String
  pub state : String
  pub zip_code : String
  pub country : String

pub record Item : Type 0 where
  pub id : ℕ
  pub order_id : ℕ
  pub product_id : ℕ
  pub product_name : String
  pub price : Money
  pub quantity : ℕ
  pub subtotal : Money

pub record Order : Type 0 where
  pub id : ℕ
  pub user_id : ℕ
  pub idempotency_key : String
  pub request_hash : String
  pub status : Status
  pub subtotal : Money
  pub discount : Money
  pub total : Money
  pub coupon_code : Option String
  pub shipping_address : Option Address
  pub billing_address : Option Address
  pub notes : String
  pub stock_deducted : Bool
  pub stock_reversed : Bool
  pub items : List Item

abbrev pub dispatched : Order → Bool
dispatched o = same_status o.status Status.shipped || same_status o.status Status.delivered

pub record NewOrder : Type 0 where
  pub coupon_code : Option String
  pub shipping_address : Option Address
  pub billing_address : Option Address
  pub notes : String

pub data StockEffect : Type 0 where
  unchanged deducted reversed : StockEffect

pub record Transition : Type 0 where
  pub to : Status
  pub from : List Status
  pub stock : StockEffect

abbrev pub effect_rank : StockEffect → ℕ
effect_rank StockEffect.unchanged = 0
effect_rank StockEffect.deducted = 1
effect_rank StockEffect.reversed = 2

abbrev pub deducts_stock : Transition → Bool
deducts_stock t = effect_rank t.stock == effect_rank StockEffect.deducted

abbrev pub reverses_stock : Transition → Bool
reverses_stock t = effect_rank t.stock == effect_rank StockEffect.reversed

-- `slices.Contains(t.From, status)`, and `status = ANY(from)`.
abbrev pub allows : List Status → Status → Bool
allows from s = contains (map rank from) (rank s)

abbrev pub to_awaiting_payment : Transition
to_awaiting_payment = record {
  to = Status.awaiting_payment;
  from = Status.payment_processing ∷ [];
  stock = StockEffect.unchanged;
}

abbrev pub to_payment_processing : Transition
to_payment_processing = record {
  to = Status.payment_processing;
  from = Status.awaiting_payment ∷ Status.payment_processing ∷ [];
  stock = StockEffect.unchanged;
}

abbrev pub to_payment_attempt : Transition
to_payment_attempt = record {
  to = Status.payment_processing;
  from = Status.awaiting_payment ∷ [];
  stock = StockEffect.unchanged;
}

abbrev pub to_paid : Transition
to_paid = record {
  to = Status.paid;
  from = Status.awaiting_payment ∷ Status.payment_processing ∷ [];
  stock = StockEffect.deducted;
}

abbrev pub to_processing : Transition
to_processing = record {
  to = Status.processing;
  from = Status.paid ∷ [];
  stock = StockEffect.unchanged;
}

abbrev pub to_shipped : Transition
to_shipped = record {
  to = Status.shipped;
  from = Status.paid ∷ Status.processing ∷ [];
  stock = StockEffect.unchanged;
}

abbrev pub to_delivered : Transition
to_delivered = record {
  to = Status.delivered;
  from = Status.shipped ∷ [];
  stock = StockEffect.unchanged;
}

abbrev pub to_fulfillment_failed_after_charge : Transition
to_fulfillment_failed_after_charge = record {
  to = Status.fulfillment_failed;
  from = Status.paid ∷ Status.cancelled ∷ Status.expired ∷ [];
  stock = StockEffect.unchanged;
}

abbrev pub to_fulfillment_failed_compensating : Transition
to_fulfillment_failed_compensating = record {
  to = Status.fulfillment_failed;
  from =
      Status.awaiting_payment ∷ Status.payment_processing ∷ Status.paid ∷ Status.cancelled
      ∷ Status.expired ∷ [];
  stock = StockEffect.unchanged;
}

abbrev pub to_cancelled : Transition
to_cancelled = record {
  to = Status.cancelled;
  from = Status.awaiting_payment ∷ Status.payment_processing ∷ Status.fulfillment_failed ∷ [];
  stock = StockEffect.reversed;
}

abbrev pub to_expired : Transition
to_expired = record {
  to = Status.expired;
  from = Status.awaiting_payment ∷ [];
  stock = StockEffect.reversed;
}

abbrev pub to_refunded : Transition
to_refunded = record {
  to = Status.refunded;
  from =
      Status.paid ∷ Status.processing ∷ Status.shipped ∷ Status.delivered
      ∷ Status.fulfillment_failed ∷ [];
  stock = StockEffect.reversed;
}

-- All of them, as in `allTransitions` of state_test.go.
abbrev pub all_transitions : List Transition
all_transitions =
    to_awaiting_payment ∷ to_payment_processing ∷ to_payment_attempt ∷ to_paid ∷ to_processing
    ∷ to_shipped ∷ to_delivered ∷ to_fulfillment_failed_after_charge
    ∷ to_fulfillment_failed_compensating ∷ to_cancelled ∷ to_expired ∷ to_refunded ∷ []

-- A transition of the table.
pub data Known : Transition → Type 0 where
  known_awaiting_payment : Known to_awaiting_payment
  known_payment_processing : Known to_payment_processing
  known_payment_attempt : Known to_payment_attempt
  known_paid : Known to_paid
  known_processing : Known to_processing
  known_shipped : Known to_shipped
  known_delivered : Known to_delivered
  known_fulfillment_failed_after_charge : Known to_fulfillment_failed_after_charge
  known_fulfillment_failed_compensating : Known to_fulfillment_failed_compensating
  known_cancelled : Known to_cancelled
  known_expired : Known to_expired
  known_refunded : Known to_refunded

pub ruleset known_rules = (
  known_awaiting_payment, known_payment_processing, known_payment_attempt, known_paid,
  known_processing, known_shipped, known_delivered, known_fulfillment_failed_after_charge,
  known_fulfillment_failed_compensating, known_cancelled, known_expired, known_refunded,
)
