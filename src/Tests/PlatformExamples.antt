-- ===== src/Tests/PlatformExamples.antt =====
-- The theorems on the platform at small inputs.
use go_api_project_template.Prelude.{
  ℕ, ◌+◌, ◌-◌, Option, none, some, ◌≤◌, ◌*◌, ◌≡◌, refl, arith, true, false, List, [], ◌∷◌,
}
use go_api_project_template.Platform.Breaker.{
  CircuitBreaker, Reply, Event, ask, answer, new_circuit_breaker, allow, report_result, run,
  released,
}
use go_api_project_template.Platform.BreakerLaws.{
  Spaced, opens, trips, released-Spaced, run_opens, run-recovers,
}
use go_api_project_template.Platform.RateLimit.{FallbackLimiter, new_fallback_limiter, Hit}
use go_api_project_template.Platform.RateLimitLaws.{admissions}
use go_api_project_template.Platform.RateLimitBounds.{Sized, admissions-bound}
use go_api_project_template.Platform.Paging.{
  CursorTexts, Place, follow, decode_cursor, encode_cursor,
}
use go_api_project_template.Platform.PagingWalk.{follow-newest_first}
use go_api_project_template.Platform.CursorText.{decode_cursor-encode_cursor}

abbrev open_breaker : CircuitBreaker
open_breaker = record { failures = 0; probing = false; open_until = 6000000000 }

abbrev outage : List Event
outage =
    ask 2000000000
    ∷ ask 7000000000
    ∷ answer 7500000000 Reply.failed
    ∷ ask 8000000000
    ∷ ask 12000000000
    ∷ []

released-Spaced_example : Spaced 6000000000 (released outage open_breaker)
released-Spaced_example =
    released-Spaced outage open_breaker 1000000000 (omega arith) (omega arith)
      (omega arith, (omega arith, (omega arith, (omega arith, (omega arith, tt))))) tt

abbrev five_failures : List Event
five_failures =
    answer 1 Reply.failed
    ∷ answer 2 Reply.failed
    ∷ answer 3 Reply.canceled
    ∷ answer 3 Reply.failed
    ∷ ask 4
    ∷ answer 4 Reply.failed
    ∷ answer 5 Reply.failed
    ∷ []

-- Three failures, an answer of the server, and three more.
abbrev three_and_three : List Event
three_and_three =
    answer 1 Reply.failed
    ∷ answer 1 Reply.failed
    ∷ answer 1 Reply.failed
    ∷ answer 1 Reply.replied
    ∷ answer 1 Reply.failed
    ∷ answer 1 Reply.failed
    ∷ answer 1 Reply.failed
    ∷ []

run_opens_example : opens three_and_three new_circuit_breaker ≡ trips 0 three_and_three
run_opens_example = run_opens three_and_three new_circuit_breaker refl (omega arith)

run-recovers_example :
    ((allow 6000000000 (run five_failures new_circuit_breaker)).0 ≡ true)
    × ((report_result 6000000000 Reply.succeeded
          (allow 6000000000 (run five_failures new_circuit_breaker)).1).open_until
        ≡ 0)
run-recovers_example =
    run-recovers five_failures 5 6000000000
      (
        omega arith,
        (
          omega arith,
          (omega arith, (omega arith, (omega arith, (omega arith, (omega arith, tt))))),
        ),
      )
      (omega arith)

abbrev fresh_limiter : FallbackLimiter
fresh_limiter = new_fallback_limiter 2 60

fresh-Sized : Sized fresh_limiter
fresh-Sized = record { one_each = tt; room = omega arith; shared = omega arith }

abbrev hits : List Hit
hits =
    (record { key = "a"; at = 100 })
    ∷ (record { key = "a"; at = 110 })
    ∷ (record { key = "b"; at = 110 })
    ∷ (record { key = "a"; at = 120 })
    ∷ []

admissions-bound_example : admissions "a" hits fresh_limiter ≤ 2 * 2
admissions-bound_example =
    admissions-bound "a" 100 160 hits fresh_limiter fresh-Sized (omega arith) (omega arith) (
      omega arith,
      omega arith,
      (omega arith, omega arith, (omega arith, omega arith, (omega arith, omega arith, tt))),
    )

abbrev places : List Place
places = (10, 1) ∷ (30, 2) ∷ (10, 3) ∷ (20, 4) ∷ []

-- Pages of two.
follow-newest_first_example :
    follow (λ p. p) 5 2 none places ≡ (30, 2) ∷ (20, 4) ∷ (10, 3) ∷ (10, 1) ∷ []
follow-newest_first_example =
    follow-newest_first (λ p. p) places 5 1
      ((refl, (refl, (refl, tt))), ((refl, (refl, tt)), ((refl, tt), (tt, tt)))) (omega arith)

abbrev first_or_none : List ℕ → Option ℕ
first_or_none [] = none
first_or_none (c ∷ s) = some (c - 200)

abbrev plain_texts : CursorTexts
plain_texts = record {
  encode = λ s. s;
  decode = λ s. some s;
  time_text = λ t. (t + 200) ∷ [];
  read_time = first_or_none;
  key_text = λ k. (k + 200) ∷ [];
  read_key = first_or_none;
}

-- The letters of "a" and "b|c".
decode_cursor-encode_cursor_example :
    decode_cursor plain_texts (encode_cursor plain_texts (97 ∷ []) (98 ∷ 124 ∷ 99 ∷ []))
    ≡ some (97 ∷ [], 98 ∷ 124 ∷ 99 ∷ [])
decode_cursor-encode_cursor_example =
    decode_cursor-encode_cursor plain_texts (λ s. refl) (97 ∷ []) (98 ∷ 124 ∷ 99 ∷ []) refl
