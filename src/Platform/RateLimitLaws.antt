-- ===== src/Platform/RateLimitLaws.antt =====
-- internal/platform/web/middleware/ratelimit.go: what one request takes
-- from what its key can still get.
use go_api_project_template.Prelude.{
  ℕ, ◌+◌, ◌-◌, ◌≤◌, ◌≡◌, sym, ap, subst, inl, inr, String, Bool, true, false, ◌&&◌, Option, none,
  some, List, [], ◌∷◌, length, leb, str_eq, if◌then◌else◌, if_elim, Bool-cases, Option-cases, arith,
}
use go_api_project_template.Platform.RateLimit.{
  FallbackWindow, FallbackLimiter, fallback_max_keys, Answer, lookup, current, allow_overflow,
  charge, reclaimed, track, allow_found, allow, Hit,
}
use go_api_project_template.Platform.RateLimitKeys.{
  OneEach, same_key, key_refl, lookup-store_own, lookup-store_other, lookup-reclaim,
  lookup-reclaim-none,
}

-- What a key can still get until `end`: what is left in its bucket, and a full one if the bucket runs
-- out before.
abbrev pub left_in : ℕ → ℕ → Option FallbackWindow → ℕ
left_in limit end none = limit
left_in limit end (some w) = if leb end w.reset_at then limit - w.count else limit - w.count + limit

abbrev pub is_tracked : Option FallbackWindow → Bool
is_tracked none = false
is_tracked (some w) = true

abbrev pub one_if : Bool → ℕ
one_if true = 1
one_if false = 0

-- Whether a request of the key is let through on the key's own bucket.
abbrev pub admitted : String → Hit → FallbackLimiter → Bool
admitted key h l =
    str_eq h.key key
    && (allow h.key h.at l).0.allowed
    && is_tracked (lookup key (allow h.key h.at l).1.keys)

abbrev pub admissions : String → List Hit → FallbackLimiter → ℕ
admissions key [] l = 0
admissions key (h ∷ hs) l = one_if (admitted key h l) + admissions key hs (allow h.key h.at l).1

module _ (l : FallbackLimiter) (key : String) (now end : ℕ) where
  abbrev pub Spends : Bool → Answer × FallbackLimiter → Type 0
  Spends own x =
      one_if (own && x.0.allowed && is_tracked (lookup key x.1.keys))
        + left_in l.limit end (lookup key x.1.keys)
      ≤ left_in l.limit end (lookup key l.keys)

  charge-own :
      (w : FallbackWindow)
      → lookup key l.keys ≡ some w
      → 1 ≤ l.limit
      → now ≤ end
      → end ≤ now + l.window
      → Spends true (charge key now (current now l.window w) l)
  charge-own w f pos le span =
      let w' = current now l.window w in
      elim (Bool-cases (leb l.limit w'.count)) [
        | inl full ↦ rw (full, lookup-store_own key w' w l.keys f, f) (ground arith)
        | inr room ↦
            rw (room, lookup-store_own key (record w' { count = w'.count + 1 }) w l.keys f, f)
              (ground arith)
      ]

  charge-other :
      (k : String) (w : FallbackWindow)
      → str_eq k key ≡ false
      → Spends false (charge k now (current now l.window w) l)
  charge-other k w n =
      let w' = current now l.window w in
      elim (Bool-cases (leb l.limit w'.count)) [
        | inl full ↦ rw (full, lookup-store_other key k w' l.keys n) (omega arith)
        | inr room ↦
            rw (room, lookup-store_other key k (record w' { count = w'.count + 1 }) l.keys n)
              (omega arith)
      ]

  -- What a key can still get does not grow where the map is reclaimed.
  reclaimed-left :
      now ≤ end
      → OneEach l.keys
      → left_in l.limit end (lookup key (reclaimed now l).keys)
        ≤ left_in l.limit end (lookup key l.keys)
  reclaimed-left le one =
      elim (Bool-cases
        (leb fallback_max_keys (length l.keys) && leb (l.last_reclaim + l.window) now)) [
          | inl x ↦ rw x (elim (lookup-reclaim key now l.keys one) [
            | inl e ↦ rw e (omega arith)
            | inr k ↦ rw (k.3, k.1) (ground (arith, k.2))
          ])
          | inr x ↦ rw x (omega arith)
        ]

pub allow_tracked :
    (key : String) (now : ℕ) (l : FallbackLimiter) (w : FallbackWindow)
    → lookup key l.keys ≡ some w
    → allow key now l ≡ charge key now (current now l.window w) l
unfolding allow
allow_tracked key now l w e = ap (allow_found key now l) e

pub allow_new :
    (key : String) (now : ℕ) (l : FallbackLimiter)
    → lookup key l.keys ≡ none
    → allow key now l ≡ track key now (reclaimed now l)
unfolding allow
allow_new key now l e = ap (allow_found key now l) e

pub overflow_same :
    (now : ℕ) (l : FallbackLimiter)
    → ((allow_overflow now l).1.keys ≡ l.keys)
      × ((allow_overflow now l).1.limit ≡ l.limit)
      × ((allow_overflow now l).1.window ≡ l.window)
unfolding allow_overflow
overflow_same now l = (ground arith, ground arith, ground arith)

pub reclaimed_same :
    (now : ℕ) (l : FallbackLimiter)
    → ((reclaimed now l).limit ≡ l.limit) × ((reclaimed now l).window ≡ l.window)
reclaimed_same now l = (ground arith, ground arith)

module _ (l : FallbackLimiter) (key : String) (now end : ℕ) where
  track-own :
      lookup key l.keys ≡ none
      → 1 ≤ l.limit
      → end ≤ now + l.window
      → Spends l key now end true (track key now l)
  track-own f pos span = elim (Bool-cases (leb fallback_max_keys (length l.keys))) [
    | inl full ↦ rw (full, (overflow_same now l).0, f) (ground arith)
    | inr room ↦ rw (room, key_refl key, f) (ground arith)
  ]

  track-other : (k : String) → str_eq k key ≡ false → Spends l key now end false (track k now l)
  track-other k n = elim (Bool-cases (leb fallback_max_keys (length l.keys))) [
    | inl full ↦ rw (full, (overflow_same now l).0) (omega arith)
    | inr room ↦ rw (room, n) (omega arith)
  ]

-- The same for a map that has just been reclaimed, counted from before that.
from_reclaimed :
    (l : FallbackLimiter) (key : String) (now end : ℕ) (own : Bool) (x : Answer × FallbackLimiter)
    → now ≤ end
    → OneEach l.keys
    → Spends (reclaimed now l) key now end own x
    → Spends l key now end own x
from_reclaimed l key now end own x le one s = ground (
  arith,
  reclaimed-left l key now end le one,
  subst
      (λ n.
        one_if (own && x.0.allowed && is_tracked (lookup key x.1.keys))
          + left_in n end (lookup key x.1.keys)
        ≤ left_in n end (lookup key (reclaimed now l).keys))
      (reclaimed_same now l).0 s,
)

pub reclaimed-lookup-none :
    (key : String) (now : ℕ) (l : FallbackLimiter)
    → lookup key l.keys ≡ none
    → lookup key (reclaimed now l).keys ≡ none
reclaimed-lookup-none key now l e =
    if_elim (λ (x : FallbackLimiter). lookup key x.keys ≡ none)
      (leb fallback_max_keys (length l.keys) && leb (l.last_reclaim + l.window) now) _ _
      (lookup-reclaim-none key now l.keys e) e

-- A request takes from what its key can still get, and from no other key's.
pub allow-Spends :
    (l : FallbackLimiter) (key k : String) (now end : ℕ)
    → OneEach l.keys
    → 1 ≤ l.limit
    → now ≤ end
    → end ≤ now + l.window
    → Spends l key now end (str_eq k key) (allow k now l)
allow-Spends l key k now end one pos le span = elim (Option-cases (lookup k l.keys)) [
  | inr (w, f) ↦ rw (allow_tracked k now l w f) (elim (Bool-cases (str_eq k key)) [
    | inl s ↦ rw s (
        subst (λ q. Spends l key now end true (charge q now (current now l.window w) l))
          (sym (same_key k key s))
          (charge-own l key now end w (subst (λ q. lookup q l.keys ≡ some w) (same_key k key s) f)
            pos le span))
    | inr n ↦ rw n (charge-other l key now end k w n)
  ])
  | inl f ↦ rw (allow_new k now l f) (
      from_reclaimed l key now end (str_eq k key) (track k now (reclaimed now l)) le one
        (elim (Bool-cases (str_eq k key)) [
          | inl s ↦ rw s (
              subst (λ q. Spends (reclaimed now l) key now end true (track q now (reclaimed now l)))
                (sym (same_key k key s))
                (track-own (reclaimed now l) key now end
                  (reclaimed-lookup-none key now l
                    (subst (λ q. lookup q l.keys ≡ none) (same_key k key s) f))
                  (subst (λ n. 1 ≤ n) (sym (reclaimed_same now l).0) pos)
                  (subst (λ n. end ≤ now + n) (sym (reclaimed_same now l).1) span)))
          | inr n ↦ rw n (track-other (reclaimed now l) key now end k n)
        ]))
]
