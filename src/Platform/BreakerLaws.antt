-- ===== src/Platform/BreakerLaws.antt =====
-- internal/platform/redis/circuit_breaker.go: how often an open breaker lets a command through, when
-- it opens, and that it closes again.
use go_api_project_template.Prelude.{
  ℕ, suc, ◌+◌, ◌≤◌, ◌<◌, ◌≡◌, ◌⊎◌, inl, inr, ap, Bool, true, false, sym, ◌∙◌, ◌||◌, All, List, [],
  ◌∷◌, leb, arith,
}
use go_api_project_template.Platform.Breaker.{
  CircuitBreaker, Reply, Event, ask, answer, time, circuit_cooldown, new_circuit_breaker, allow,
  report_result, step, run, released,
}

-- The server writes no answer: each command fails, or its caller hangs up.
abbrev pub Silent : List Event → Type 0
Silent [] = Unit
Silent (ask now ∷ es) = Silent es
Silent (answer now Reply.succeeded ∷ es) = ⊥
Silent (answer now Reply.replied ∷ es) = ⊥
Silent (answer now Reply.canceled ∷ es) = Silent es
Silent (answer now Reply.failed ∷ es) = Silent es

-- The clock does not go back.
abbrev pub Timed : ℕ → List Event → Type 0
Timed t [] = Unit
Timed t (e ∷ es) = (t ≤ time e) × Timed (time e) es

-- The first time is at least `t`, and each later one at least a cooldown after the one before.
abbrev pub Spaced : ℕ → List ℕ → Type 0
Spaced t [] = Unit
Spaced t (x ∷ xs) = (t ≤ x) × Spaced (x + circuit_cooldown) xs

-- Whether a sequence of calls has five failures in a row, of which `n` were counted before it: an
-- answer of the server starts the count again, a caller that hangs up leaves it as it is.
abbrev pub trips : ℕ → List Event → Bool
trips n [] = false
trips n (ask now ∷ es) = trips n es
trips n (answer now Reply.failed ∷ es) = leb 5 (suc n) || trips (suc n) es
trips n (answer now Reply.succeeded ∷ es) = trips 0 es
trips n (answer now Reply.replied ∷ es) = trips 0 es
trips n (answer now Reply.canceled ∷ es) = trips n es

-- Whether the breaker is open at the start or after one of the calls.
abbrev pub opens : List Event → CircuitBreaker → Bool
opens [] b = leb 1 b.open_until
opens (e ∷ es) b = leb 1 b.open_until || opens es (step e b)

-- The state after a step, by the kind of the step.
allow_open :
    (now t : ℕ) (b : CircuitBreaker)
    → 0 < t
    → t ≤ b.open_until
    → ((allow now b).0 ≡ true) × (t ≤ now) × ((allow now b).1.open_until ≡ now + circuit_cooldown)
      ⊎ ((allow now b).0 ≡ false) × ((allow now b).1 ≡ b)
unfolding allow
allow_open now t b pos h = ground arith

failed_open :
    (now t : ℕ) (b : CircuitBreaker)
    → t ≤ b.open_until
    → t ≤ now + circuit_cooldown
    → t ≤ (report_result now Reply.failed b).open_until
unfolding report_result
failed_open now t b h g = ground arith

armed_released :
    (es : List Event) (b : CircuitBreaker) (now t : ℕ)
    → 0 < t
    → t ≤ b.open_until
    → t ≤ now + circuit_cooldown
    → Timed now es
    → Silent es
    → Spaced t (released es b)
unfolding report_result
armed_released [] b now t p h g ts s = tt
armed_released (ask x ∷ es) b now t p h g ts s = elim (allow_open x t b p h) [
  | inl e ↦ rw e.0 (
    e.1,
    armed_released es (allow x b).1 x (x + circuit_cooldown) (omega arith) (omega (arith, e.2))
        (omega arith) ts.1 s,
  )
  | inr e ↦ rw (e.0, e.1) (armed_released es b x t p h (omega (arith, g, ts.0)) ts.1 s)
]
armed_released (answer x Reply.succeeded ∷ es) b now t p h g ts s = elim s [ ]
armed_released (answer x Reply.replied ∷ es) b now t p h g ts s = elim s [ ]
armed_released (answer x Reply.canceled ∷ es) b now t p h g ts s =
    armed_released es b x t p h (omega (arith, g, ts.0)) ts.1 s
armed_released (answer x Reply.failed ∷ es) b now t p h g ts s =
    let g' : t ≤ x + circuit_cooldown = omega (arith, g, ts.0) in
    armed_released es (report_result x Reply.failed b) x t p (failed_open x t b h g') g' ts.1 s

-- While Redis is silent, a breaker that is open, and was armed no later than now, lets a command
-- through no earlier than the end of its cooldown, and every next one at least five seconds after the
-- one before, whatever else is asked and reported in between.
pub released-Spaced :
    (es : List Event) (b : CircuitBreaker) (now : ℕ)
    → 0 < b.open_until
    → b.open_until ≤ now + circuit_cooldown
    → Timed now es
    → Silent es
    → Spaced b.open_until (released es b)
released-Spaced es b now p g ts s = armed_released es b now b.open_until p (omega arith) g ts s

open-opens : (es : List Event) (b : CircuitBreaker) → 0 < b.open_until → opens es b ≡ true
open-opens [] b p = ground arith
open-opens (e ∷ es) b p = ground arith

closed-allow : (now : ℕ) (b : CircuitBreaker) → b.open_until ≡ 0 → allow now b ≡ (true, b)
unfolding allow
closed-allow now b h = ground arith

closed_failed :
    (now : ℕ) (b : CircuitBreaker)
    → b.open_until ≡ 0
    → b.failures < 5
    → (b.failures ≡ 4) × (0 < (report_result now Reply.failed b).open_until)
      ⊎ ((b.failures < 4)
          × ((report_result now Reply.failed b).open_until ≡ 0)
          × ((report_result now Reply.failed b).failures ≡ suc b.failures))
unfolding report_result
closed_failed now b h g = ground arith

closed_answered :
    (now : ℕ) (b : CircuitBreaker)
    → b.open_until ≡ 0
    → ((report_result now Reply.succeeded b).open_until ≡ 0)
      × ((report_result now Reply.succeeded b).failures ≡ 0)
unfolding report_result
closed_answered now b h = ground arith

closed_or : (b : CircuitBreaker) (x : Bool) → b.open_until ≡ 0 → (leb 1 b.open_until || x) ≡ x
closed_or b x h = ground arith

fifth : (n : ℕ) (x : Bool) → n ≡ 4 → (leb 5 (suc n) || x) ≡ true
fifth n x h = ground arith

-- After an answer of the server the count starts again.
answered_opens :
    (now : ℕ) (es : List Event) (b : CircuitBreaker)
    → b.open_until ≡ 0
    → ((c : CircuitBreaker) → c.open_until ≡ 0 → c.failures < 5 → opens es c ≡ trips c.failures es)
    → (leb 1 b.open_until || opens es (report_result now Reply.succeeded b)) ≡ trips 0 es
answered_opens now es b h rest =
    let closed = closed_answered now b h in
    closed_or b _ h
    ∙ rest (report_result now Reply.succeeded b) closed.0 (omega (arith, closed.1))
    ∙ ap (λ (n : ℕ). trips n es) closed.1

-- A closed breaker with fewer than five failures on its count is opened by a sequence of calls exactly
-- if those failures and the ones that the calls report are five in a row at some point: an answer of
-- the server, an error reply too, starts the count again, and callers that hang up do not count.
pub run_opens :
    (es : List Event) (b : CircuitBreaker)
    → b.open_until ≡ 0
    → b.failures < 5
    → opens es b ≡ trips b.failures es
unfolding report_result
run_opens [] b h g = ground arith
run_opens (ask x ∷ es) b h g =
    closed_or b _ h
    ∙ ap (λ (p : Bool × CircuitBreaker). opens es p.1) (closed-allow x b h)
    ∙ run_opens es b h g
run_opens (answer x Reply.succeeded ∷ es) b h g = answered_opens x es b h (run_opens es)
run_opens (answer x Reply.replied ∷ es) b h g = answered_opens x es b h (run_opens es)
run_opens (answer x Reply.canceled ∷ es) b h g = closed_or b _ h ∙ run_opens es b h g
run_opens (answer x Reply.failed ∷ es) b h g =
    let b' = report_result x Reply.failed b in
    closed_or b _ h ∙ elim (closed_failed x b h g) [
      | inl e ↦ open-opens es b' e.1 ∙ sym (fifth b.failures _ e.0)
      | inr e ↦
          let rest = run_opens es b' e.1 (omega (arith, e.0, e.2)) in
          let counted = ap (λ (n : ℕ). trips n es) e.2 in ground (arith, e.0, rest, counted)
    ]

-- No call leaves the breaker armed for longer than a cooldown from its time.
step_armed :
    (e : Event) (b : CircuitBreaker) (last : ℕ)
    → time e ≤ last
    → b.open_until ≤ last + circuit_cooldown
    → (step e b).open_until ≤ last + circuit_cooldown
unfolding allow report_result
step_armed (ask x) b last h g = ground arith
step_armed (answer x Reply.succeeded) b last h g = ground arith
step_armed (answer x Reply.replied) b last h g = ground arith
step_armed (answer x Reply.canceled) b last h g = g
step_armed (answer x Reply.failed) b last h g = ground arith

run_armed :
    (es : List Event) (b : CircuitBreaker) (last : ℕ)
    → All (λ e. time e ≤ last) es
    → b.open_until ≤ last + circuit_cooldown
    → (run es b).open_until ≤ last + circuit_cooldown
run_armed [] b last h g = g
run_armed (e ∷ es) b last h g = run_armed es (step e b) last h.1 (step_armed e b last h.0 g)

allow_due :
    (now : ℕ) (b : CircuitBreaker)
    → b.open_until ≤ now
    → ((allow now b).0 ≡ true)
      × ((report_result now Reply.succeeded (allow now b).1).open_until ≡ 0)
unfolding allow report_result
allow_due now b h = ground arith

-- After any calls at all, the last of them at `last` or before, a command that asks a cooldown later
-- is let through, and the server's answer to it leaves the breaker closed.
pub run-recovers :
    (es : List Event) (last now : ℕ)
    → All (λ e. time e ≤ last) es
    → last + circuit_cooldown ≤ now
    → let b = run es new_circuit_breaker in
      ((allow now b).0 ≡ true)
      × ((report_result now Reply.succeeded (allow now b).1).open_until ≡ 0)
run-recovers es last now h g =
    let armed = run_armed es new_circuit_breaker last h (omega arith) in
    allow_due now (run es new_circuit_breaker) (omega (arith, armed, g))
