-- ===== src/Order/State.antt =====
-- What the transition table of state.go allows: the exact graph, and what the two stock flags say
-- of an order that has gone through any transitions.
use go_api_project_template.Prelude.{
  ◌≡◌, Bool, true, false, ◌||◌, ◌&&◌, Option, some, none, List, [], ◌∷◌, arith, if◌then◌else◌,
}
use go_api_project_template.Order.Domain.{
  Known, known_awaiting_payment, known_payment_processing, known_payment_attempt, known_paid,
  known_processing, known_shipped, known_delivered, known_fulfillment_failed_after_charge,
  known_fulfillment_failed_compensating, known_cancelled, known_expired, known_refunded, Status,
  same_status, Transition, allows, deducts_stock, reverses_stock, all_transitions,
}

-- The part of an order that a transition reads and writes.
pub record Phase : Type 0 where
  pub status : Status
  pub stock_deducted : Bool
  pub stock_reversed : Bool

-- `UPDATE orders SET ... WHERE status = ANY($3)` of `Repository.Apply` on one row.
unfoldable pub fire : Transition → Phase → Option Phase
fire t p =
    if allows t.from p.status
    then some (record {
      status = t.to;
      stock_deducted = p.stock_deducted || deducts_stock t;
      stock_reversed = p.stock_reversed || reverses_stock t;
    })
    else none

abbrev pub initial : Phase
initial = record {
  status = Status.awaiting_payment;
  stock_deducted = false;
  stock_reversed = false;
}

-- What the flags say in each status.
abbrev pub flags_agree : Status → Bool → Bool → Bool
flags_agree Status.awaiting_payment false false = true
flags_agree Status.payment_processing false false = true
flags_agree Status.paid true false = true
flags_agree Status.processing true false = true
flags_agree Status.shipped true false = true
flags_agree Status.delivered true false = true
flags_agree Status.cancelled d true = true
flags_agree Status.expired false true = true
flags_agree Status.refunded d true = true
flags_agree Status.fulfillment_failed d r = true
flags_agree s d r = false

abbrev pub FlagsAgree : Phase → Type 0
FlagsAgree p = flags_agree p.status p.stock_deducted p.stock_reversed ≡ true

-- Every transition of the table keeps the agreement.
pub FlagsAgree-fire :
    {t : Transition} → Known t → (p q : Phase) → FlagsAgree p → fire t p ≡ some q → FlagsAgree q
unfolding fire
FlagsAgree-fire known_awaiting_payment p q h e = ground arith
FlagsAgree-fire known_payment_processing p q h e = ground arith
FlagsAgree-fire known_payment_attempt p q h e = ground arith
FlagsAgree-fire known_paid p q h e = ground arith
FlagsAgree-fire known_processing p q h e = ground arith
FlagsAgree-fire known_shipped p q h e = ground arith
FlagsAgree-fire known_delivered p q h e = ground arith
FlagsAgree-fire known_fulfillment_failed_after_charge p q h e = ground arith
FlagsAgree-fire known_fulfillment_failed_compensating p q h e = ground arith
FlagsAgree-fire known_cancelled p q h e = ground arith
FlagsAgree-fire known_expired p q h e = ground arith
FlagsAgree-fire known_refunded p q h e = ground arith

-- The graph that state_test.go spells out, from each status to the next.
abbrev pub successors : Status → List Status
successors Status.awaiting_payment =
    Status.cancelled ∷ Status.expired ∷ Status.fulfillment_failed ∷ Status.paid
    ∷ Status.payment_processing ∷ []
successors Status.payment_processing =
    Status.awaiting_payment ∷ Status.cancelled ∷ Status.fulfillment_failed ∷ Status.paid
    ∷ Status.payment_processing ∷ []
successors Status.paid =
    Status.fulfillment_failed ∷ Status.processing ∷ Status.refunded ∷ Status.shipped ∷ []
successors Status.processing = Status.refunded ∷ Status.shipped ∷ []
successors Status.shipped = Status.delivered ∷ Status.refunded ∷ []
successors Status.delivered = Status.refunded ∷ []
successors Status.cancelled = Status.fulfillment_failed ∷ []
successors Status.expired = Status.fulfillment_failed ∷ []
successors Status.fulfillment_failed = Status.cancelled ∷ Status.refunded ∷ []
successors Status.refunded = []

-- Whether one of the transitions leads from `s` to `u`.
abbrev pub leads : List Transition → Status → Status → Bool
leads [] s u = false
leads (t ∷ ts) s u = (allows t.from s && same_status t.to u) || leads ts s u

-- The transitions of the table lead from a status to another exactly as the graph of
-- state_test.go says, for every pair of statuses.
pub leads-eq-successors : (s u : Status) → leads all_transitions s u ≡ allows (successors s) u
leads-eq-successors s u = ground arith
