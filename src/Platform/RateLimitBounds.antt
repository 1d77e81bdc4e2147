-- ===== src/Platform/RateLimitBounds.antt =====
-- internal/platform/web/middleware/ratelimit.go: how much the limiter in the process lets through, and
-- how large it gets.
use go_api_project_template.Prelude.{
  ℕ, ◌+◌, ◌*◌, ◌≤◌, ◌≡◌, refl, sym, ◌∙◌, subst, inl, inr, String, ◌&&◌, Option, none, some, List,
  [], ◌∷◌, length, leb, if_elim, Bool-cases, Option-cases, arith,
}
use go_api_project_template.Platform.RateLimit.{
  FallbackWindow, Entry, FallbackLimiter, fallback_max_keys, Answer, lookup, store, reclaim_expired,
  current, allow_overflow, charge, reclaimed, track, allow, Hit, after,
}
use go_api_project_template.Platform.RateLimitKeys.{OneEach, store-OneEach, reclaim-OneEach}
use go_api_project_template.Platform.RateLimitLaws.{
  allow_tracked, allow_new, overflow_same, reclaimed_same, reclaimed-lookup-none, allow-Spends,
  left_in, admissions,
}

-- One bucket for each key, no more buckets than the limit, and no more requests on the shared window
-- than it has.
pub record Sized (l : FallbackLimiter) : Type 0 where
  pub one_each : OneEach l.keys
  pub room : length l.keys ≤ fallback_max_keys
  pub shared : l.overflow.count ≤ l.limit * fallback_max_keys

store-length :
    (k : String) (v : FallbackWindow) (es : List Entry) → length (store k v es) ≡ length es
store-length k v [] = refl
store-length k v (e ∷ es) = omega (arith, store-length k v es)

reclaim-length : (now : ℕ) (es : List Entry) → length (reclaim_expired now es) ≤ length es
reclaim-length now [] = omega arith
reclaim-length now (e ∷ es) = ground (arith, reclaim-length now es)

charge-Sized :
    (k : String) (now : ℕ) (w : FallbackWindow) (l : FallbackLimiter)
    → Sized l
    → Sized (charge k now w l).1
charge-Sized k now w l s =
    if_elim (λ (x : Answer × FallbackLimiter). Sized x.1) (leb l.limit w.count) _ _ (stored w)
      (stored (record w { count = w.count + 1 }))
  where
    stored : (v : FallbackWindow) → Sized (record l { keys = store k v l.keys })
    stored v = record {
      one_each = store-OneEach k v l.keys s.one_each;
      room = omega (arith, s.room, store-length k v l.keys);
      shared = s.shared;
    }

reclaimed-Sized : (now : ℕ) (l : FallbackLimiter) → Sized l → Sized (reclaimed now l)
reclaimed-Sized now l s =
    if_elim Sized (leb fallback_max_keys (length l.keys) && leb (l.last_reclaim + l.window) now) _ _
      (record {
        one_each = reclaim-OneEach now l.keys s.one_each;
        room = omega (arith, s.room, reclaim-length now l.keys);
        shared = s.shared;
      })
      s

overflow_shared :
    (now : ℕ) (l : FallbackLimiter)
    → l.overflow.count ≤ l.limit * fallback_max_keys
    → (allow_overflow now l).1.overflow.count ≤ (allow_overflow now l).1.limit * fallback_max_keys
unfolding allow_overflow
overflow_shared now l h = ground arith

overflow-Sized : (now : ℕ) (l : FallbackLimiter) → Sized l → Sized (allow_overflow now l).1
overflow-Sized now l s =
    let same = sym (overflow_same now l).0 in
    record {
      one_each = subst OneEach same s.one_each;
      room = subst (λ es. length es ≤ fallback_max_keys) same s.room;
      shared = overflow_shared now l s.shared;
    }

track-Sized :
    (k : String) (now : ℕ) (l : FallbackLimiter)
    → lookup k l.keys ≡ none
    → Sized l
    → Sized (track k now l).1
track-Sized k now l f s = elim (Bool-cases (leb fallback_max_keys (length l.keys))) [
  | inl full ↦ rw full (overflow-Sized now l s)
  | inr free ↦
      rw free (record { one_each = (f, s.one_each); room = ground arith; shared = s.shared })
]

allow-Sized : (k : String) (now : ℕ) (l : FallbackLimiter) → Sized l → Sized (allow k now l).1
allow-Sized k now l s = elim (Option-cases (lookup k l.keys)) [
  | inr (w, f) ↦ rw (allow_tracked k now l w f) (charge-Sized k now (current now l.window w) l s)
  | inl f ↦ rw (allow_new k now l f) (
      track-Sized k now (reclaimed now l) (reclaimed-lookup-none k now l f)
        (reclaimed-Sized now l s))
]

-- After any requests the map has at most 10000 buckets, one for each key, and at most the limit times
-- 10000 requests of the others have been let through on the shared window.
pub after-Sized : (hs : List Hit) (l : FallbackLimiter) → Sized l → Sized (after hs l)
unfolding after
after-Sized [] l s = s
after-Sized (h ∷ hs) l s = after-Sized hs (allow h.key h.at l).1 (allow-Sized h.key h.at l s)

track_same :
    (k : String) (now : ℕ) (l : FallbackLimiter)
    → ((track k now l).1.limit ≡ l.limit) × ((track k now l).1.window ≡ l.window)
track_same k now l = elim (Bool-cases (leb fallback_max_keys (length l.keys))) [
  | inl full ↦ rw full ((overflow_same now l).1, (overflow_same now l).2)
  | inr free ↦ rw free (refl, refl)
]

allow_same :
    (k : String) (now : ℕ) (l : FallbackLimiter)
    → ((allow k now l).1.limit ≡ l.limit) × ((allow k now l).1.window ≡ l.window)
allow_same k now l = elim (Option-cases (lookup k l.keys)) [
  | inr (w, f) ↦ rw (allow_tracked k now l w f) (ground arith, ground arith)
  | inl f ↦ rw (allow_new k now l f) (
    (track_same k now (reclaimed now l)).0 ∙ (reclaimed_same now l).0,
    (track_same k now (reclaimed now l)).1 ∙ (reclaimed_same now l).1,
  )
]

-- All requests come between two times.
abbrev pub Between : ℕ → ℕ → List Hit → Type 0
Between start end [] = Unit
Between start end (h ∷ hs) = (start ≤ h.at) × (h.at ≤ end) × Between start end hs

admissions-left :
    (key : String) (start end : ℕ) (hs : List Hit) (l : FallbackLimiter)
    → Sized l
    → 1 ≤ l.limit
    → end ≤ start + l.window
    → Between start end hs
    → admissions key hs l ≤ left_in l.limit end (lookup key l.keys)
admissions-left key start end [] l s pos span b = omega arith
admissions-left key start end (h ∷ hs) l s pos span b =
    let l' = (allow h.key h.at l).1 in
    let same = allow_same h.key h.at l in
    let now_span : end ≤ h.at + l.window = omega (arith, span, b.0) in
    let step = allow-Spends l key h.key h.at end s.one_each pos b.1 now_span in
    let rest =
      admissions-left key start end hs l' (allow-Sized h.key h.at l s)
        (subst (λ n. 1 ≤ n) (sym same.0) pos) (subst (λ n. end ≤ start + n) (sym same.1) span)
        b.2 in
    let rest' =
      subst (λ n. admissions key hs l' ≤ left_in n end (lookup key l'.keys)) same.0 rest in
    omega (arith, step, rest')

left_bound : (limit end : ℕ) (o : Option FallbackWindow) → left_in limit end o ≤ 2 * limit
left_bound limit end none = omega arith
left_bound limit end (some w) = ground arith

-- Whatever is asked in a span of time no longer than the window, in whatever order and for whatever
-- other keys, a key is let through on a bucket of its own at most twice the limit.
pub admissions-bound :
    (key : String) (start end : ℕ) (hs : List Hit) (l : FallbackLimiter)
    → Sized l
    → 1 ≤ l.limit
    → end ≤ start + l.window
    → Between start end hs
    → admissions key hs l ≤ 2 * l.limit
admissions-bound key start end hs l s pos span b = omega (
  arith,
  admissions-left key start end hs l s pos span b,
  left_bound l.limit end (lookup key l.keys),
)
