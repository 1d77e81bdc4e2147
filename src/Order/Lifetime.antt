-- ===== src/Order/Lifetime.antt =====
-- What the transition table of state.go says of an order over any number of transitions.
use go_api_project_template.Prelude.{
  ◌≡◌, refl, Bool, true, false, ℕ, ◌+◌, none, some, Option, List, [], ◌∷◌, arith, if◌then◌else◌,
}
use go_api_project_template.Order.Domain.{
  Known, known_awaiting_payment, known_payment_processing, known_payment_attempt, known_paid,
  known_processing, known_shipped, known_delivered, known_fulfillment_failed_after_charge,
  known_fulfillment_failed_compensating, known_cancelled, known_expired, known_refunded, Transition,
  deducts_stock,
}
use go_api_project_template.Order.State.{Phase, fire, initial, FlagsAgree, FlagsAgree-fire}

-- Transitions of the table, one after the other.
pub data AllKnown : List Transition → Type 0 where
  known_none : AllKnown []
  known_next : {t : Transition} {ts : List Transition} → Known t → AllKnown ts → AllKnown (t ∷ ts)

-- How often stock was deducted, as the flag of the order tells it.
abbrev pub flag : Bool → ℕ
flag true = 1
flag false = 0

after : Transition → Phase → Phase
after t p = elim (fire t p) [ none ↦ p | some q ↦ q ]

deduction : Transition → Phase → ℕ
deduction t p = elim (fire t p) [ none ↦ 0 | some q ↦ if deducts_stock t then 1 else 0 ]

-- A sequence of transitions that are tried in turn; one that the status refuses changes nothing.
unfoldable pub try_all : List Transition → Phase → Phase
unfolding after
try_all [] p = p
try_all (t ∷ ts) p = try_all ts (after t p)

-- How many of them fire and deduct stock.
unfoldable pub deductions : List Transition → Phase → ℕ
unfolding after deduction
deductions [] p = 0
deductions (t ∷ ts) p = deduction t p + deductions ts (after t p)

after-FlagsAgree : {t : Transition} → Known t → (p : Phase) → FlagsAgree p → FlagsAgree (after t p)
unfolding after
after-FlagsAgree {t} k p h = go (fire t p) (λ q e. FlagsAgree-fire k p q h e)
  where
    go :
        (o : Option Phase)
        → ((q : Phase) → o ≡ some q → FlagsAgree q)
        → FlagsAgree (elim o [ none ↦ p | some q ↦ q ])
    go none f = h
    go (some q) f = f q refl

-- A deduction sets the flag, and finds it unset.
deduction-flag :
    {t : Transition}
    → Known t
    → (p : Phase) → FlagsAgree p
    → deduction t p + flag p.stock_deducted ≡ flag (after t p).stock_deducted
unfolding after deduction fire
deduction-flag known_awaiting_payment p h = ground arith
deduction-flag known_payment_processing p h = ground arith
deduction-flag known_payment_attempt p h = ground arith
deduction-flag known_paid p h = ground arith
deduction-flag known_processing p h = ground arith
deduction-flag known_shipped p h = ground arith
deduction-flag known_delivered p h = ground arith
deduction-flag known_fulfillment_failed_after_charge p h = ground arith
deduction-flag known_fulfillment_failed_compensating p h = ground arith
deduction-flag known_cancelled p h = ground arith
deduction-flag known_expired p h = ground arith
deduction-flag known_refunded p h = ground arith

deductions-flag :
    {ts : List Transition}
    → AllKnown ts
    → (p : Phase) → FlagsAgree p
    → deductions ts p + flag p.stock_deducted ≡ flag (try_all ts p).stock_deducted
unfolding deductions try_all
deductions-flag known_none p h = omega arith
deductions-flag (known_next {t} {ts} k ks) p h =
    let first = deduction-flag k p h in
    let rest = deductions-flag ks (after t p) (after-FlagsAgree k p h) in omega arith

-- For an order that was just made, over any sequence of transitions of the table that are tried one
-- after the other, the transitions that deduct stock fire as often as the order's flag says at the
-- end: once if it is set, and never if it is not.
pub deductions_eq :
    {ts : List Transition}
    → AllKnown ts
    → deductions ts initial ≡ flag (try_all ts initial).stock_deducted
deductions_eq ks = let h = deductions-flag ks initial refl in omega arith
