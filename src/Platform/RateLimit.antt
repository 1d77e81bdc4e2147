-- ===== src/Platform/RateLimit.antt =====
-- internal/platform/web/middleware/ratelimit.go: the limiter in the process, which is asked where the
-- one in Redis fails. `RateLimit` makes it only for a positive limit and window.
-- Times are nanoseconds since Go's zero time; every call holds the mutex.
use go_api_project_template.Prelude.{
  ℕ, ◌+◌, ◌-◌, ◌*◌, String, Bool, true, false, ◌&&◌, Option, none, some, List, [], ◌∷◌, length, ltb,
  leb, ◌==◌, str_eq, if◌then◌else◌,
}

pub record FallbackWindow : Type 0 where
  pub count : ℕ
  pub reset_at : ℕ

pub record Entry : Type 0 where
  pub key : String
  pub bucket : FallbackWindow

pub record FallbackLimiter : Type 0 where
  pub keys : List Entry
  pub overflow : FallbackWindow
  pub last_reclaim : ℕ
  pub limit : ℕ
  pub window : ℕ

abbrev pub fallback_max_keys : ℕ
fallback_max_keys = 10000

abbrev pub new_fallback_limiter : ℕ → ℕ → FallbackLimiter
new_fallback_limiter limit window = record {
  keys = [];
  overflow = record { count = 0; reset_at = 0 };
  last_reclaim = 0;
  limit = limit;
  window = window;
}

pub record Answer : Type 0 where
  pub allowed : Bool
  pub saturated : Bool
  pub retry_after : ℕ

abbrev pub lookup : String → List Entry → Option FallbackWindow
lookup key [] = none
lookup key (e ∷ es) = let rest = lookup key es in if str_eq e.key key then some e.bucket else rest

abbrev pub store : String → FallbackWindow → List Entry → List Entry
store key w [] = []
store key w (e ∷ es) = (if str_eq e.key key then record e { bucket = w } else e) ∷ store key w es

abbrev pub reclaim_expired : ℕ → List Entry → List Entry
reclaim_expired now [] = []
reclaim_expired now (e ∷ es) =
    let rest = reclaim_expired now es in if ltb e.bucket.reset_at now then rest else e ∷ rest

-- A window that has run out starts again.
abbrev pub current : ℕ → ℕ → FallbackWindow → FallbackWindow
current now window w =
    if ltb w.reset_at now then record { count = 0; reset_at = now + window } else w

abbrev refuse : Bool → ℕ → FallbackWindow → Answer
refuse saturated now w = record {
  allowed = false;
  saturated = saturated;
  retry_after = w.reset_at - now;
}

abbrev admit : Bool → Answer
admit saturated = record { allowed = true; saturated = saturated; retry_after = 0 }

-- `saturated` is read before the count goes up.
abbrev charge_overflow : ℕ → FallbackWindow → FallbackLimiter → Answer × FallbackLimiter
charge_overflow now w l =
    if leb (l.limit * fallback_max_keys) w.count
    then (refuse (w.count == 0) now w, record l { overflow = w })
    else (admit (w.count == 0), record l { overflow = record w { count = w.count + 1 } })

unfoldable pub allow_overflow : ℕ → FallbackLimiter → Answer × FallbackLimiter
allow_overflow now l = charge_overflow now (current now l.window l.overflow) l

-- A key with a bucket is charged to it.
abbrev pub charge : String → ℕ → FallbackWindow → FallbackLimiter → Answer × FallbackLimiter
charge key now w l =
    if leb l.limit w.count
    then (refuse false now w, record l { keys = store key w l.keys })
    else (admit false, record l { keys = store key (record w { count = w.count + 1 }) l.keys })

-- A full map is reclaimed, at most once in a window.
abbrev pub reclaimed : ℕ → FallbackLimiter → FallbackLimiter
reclaimed now l =
    if leb fallback_max_keys (length l.keys) && leb (l.last_reclaim + l.window) now
    then record l { keys = reclaim_expired now l.keys; last_reclaim = now }
    else l

abbrev pub first_window : ℕ → FallbackLimiter → FallbackWindow
first_window now l = record { count = 1; reset_at = now + l.window }

abbrev pub track : String → ℕ → FallbackLimiter → Answer × FallbackLimiter
track key now l = if leb fallback_max_keys (length l.keys) then allow_overflow now l else (
  admit false,
  record l { keys = (record { key = key; bucket = first_window now l }) ∷ l.keys },
)

abbrev pub allow_found :
    String → ℕ → FallbackLimiter → Option FallbackWindow → Answer × FallbackLimiter
allow_found key now l none = track key now (reclaimed now l)
allow_found key now l (some w) = charge key now (current now l.window w) l

unfoldable pub allow : String → ℕ → FallbackLimiter → Answer × FallbackLimiter
unfolding allow_overflow
allow key now l = allow_found key now l (lookup key l.keys)

-- The requests that reach the limiter: a key and a time each.
pub record Hit : Type 0 where
  pub key : String
  pub at : ℕ

unfoldable pub after : List Hit → FallbackLimiter → FallbackLimiter
after [] l = l
after (h ∷ hs) l = after hs (allow h.key h.at l).1
