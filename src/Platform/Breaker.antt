-- ===== src/Platform/Breaker.antt =====
-- internal/platform/redis/circuit_breaker.go: the breaker in front of Redis.
-- Times are nanoseconds since Go's zero time, which is therefore 0: `openUntil` is 0 while the breaker
-- is closed. Each method holds the mutex, so the calls of several goroutines are one sequence.
use go_api_project_template.Prelude.{
  ℕ, ◌+◌, Bool, true, false, List, [], ◌∷◌, ◌==◌, ltb, leb, if◌then◌else◌,
}

pub record CircuitBreaker : Type 0 where
  pub failures : ℕ
  pub probing : Bool
  pub open_until : ℕ

-- What `ReportResult` tells apart in the error of a command: none, one that the server wrote, a caller
-- that hung up, and every other.
pub data Reply : Type 0 where
  succeeded replied canceled failed : Reply

abbrev pub circuit_threshold : ℕ
circuit_threshold = 5

abbrev pub circuit_cooldown : ℕ
circuit_cooldown = 5000000000

abbrev pub new_circuit_breaker : CircuitBreaker
new_circuit_breaker = record { failures = 0; probing = false; open_until = 0 }

-- Whether the command may go out, and the breaker afterwards.
unfoldable pub allow : ℕ → CircuitBreaker → Bool × CircuitBreaker
allow now b =
    if b.open_until == 0
    then (true, b)
    else if ltb now b.open_until
    then (false, b)
    else (true, record b { open_until = now + circuit_cooldown; probing = true })

abbrev count_failure : ℕ → ℕ → CircuitBreaker → CircuitBreaker
count_failure now n b =
    if leb circuit_threshold n
    then record b { open_until = now + circuit_cooldown; failures = 0; probing = false }
    else record b { failures = n; probing = false }

abbrev reachable : CircuitBreaker → CircuitBreaker
reachable b =
    if b.probing
    then record b { failures = 0; open_until = 0; probing = false }
    else record b { failures = 0 }

unfoldable pub report_result : ℕ → Reply → CircuitBreaker → CircuitBreaker
report_result now Reply.succeeded b = reachable b
report_result now Reply.replied b = reachable b
report_result now Reply.canceled b = b
report_result now Reply.failed b = count_failure now (b.failures + 1) b

-- The calls that the breaker gets, each with the time it reads.
pub data Event : Type 0 where
  ask : ℕ → Event
  answer : ℕ → Reply → Event

abbrev pub time : Event → ℕ
time (ask now) = now
time (answer now r) = now

abbrev pub step : Event → CircuitBreaker → CircuitBreaker
step (ask now) b = (allow now b).1
step (answer now r) b = report_result now r b

abbrev pub run : List Event → CircuitBreaker → CircuitBreaker
run [] b = b
run (e ∷ es) b = run es (step e b)

abbrev keep_if : Bool → ℕ → List ℕ → List ℕ
keep_if true now rest = now ∷ rest
keep_if false now rest = rest

-- The times of the commands that are let through.
abbrev pub released : List Event → CircuitBreaker → List ℕ
released [] b = []
released (ask now ∷ es) b = keep_if (allow now b).0 now (released es (allow now b).1)
released (answer now r ∷ es) b = released es (report_result now r b)
