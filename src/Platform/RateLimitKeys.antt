-- ===== src/Platform/RateLimitKeys.antt =====
-- internal/platform/web/middleware/ratelimit.go: the map of buckets.
use go_api_project_template.Prelude.{
  ℕ, ◌<◌, ◌≡◌, refl, subst, ◌⊎◌, inl, inr, String, true, false, none, some, List, [], ◌∷◌, ltb,
  str_eq, eq_iff, if◌then◌else◌, if_elim, Bool-cases, arith,
}
use go_api_project_template.Platform.RateLimit.{
  FallbackWindow, Entry, lookup, store, reclaim_expired,
}

-- One bucket for each key.
abbrev pub OneEach : List Entry → Type 0
OneEach [] = Unit
OneEach (e ∷ es) = (lookup e.key es ≡ none) × OneEach es

pub same_key : (s t : String) → str_eq s t ≡ true → s ≡ t
same_key s t h = ground (arith, eq_iff s t)

pub key_refl : (s : String) → str_eq s s ≡ true
key_refl s = ground (arith, eq_iff s s)

pub lookup-store_own :
    (key : String) (v w : FallbackWindow) (es : List Entry)
    → lookup key es ≡ some w
    → lookup key (store key v es) ≡ some v
lookup-store_own key v w [] h = absurd (ground arith)
lookup-store_own key v w (e ∷ es) h = elim (Bool-cases (str_eq e.key key)) [
  | inl s ↦ rw (s, s) refl
  | inr n ↦ rw (n, n) (lookup-store_own key v w es (rw n at h))
]

store_key :
    (k : String) (v : FallbackWindow) (e : Entry)
    → (if str_eq e.key k then record e { bucket = v } else e).key ≡ e.key
store_key k v e = ground arith

pub lookup-store_other :
    (key k : String) (v : FallbackWindow) (es : List Entry)
    → str_eq k key ≡ false
    → lookup key (store k v es) ≡ lookup key es
lookup-store_other key k v [] n = refl
lookup-store_other key k v (e ∷ es) n = elim (Bool-cases (str_eq e.key k)) [
  | inl s ↦ ground (arith, s, same_key e.key k s, n, lookup-store_other key k v es n)
  | inr o ↦ ground (arith, o, lookup-store_other key k v es n)
]

pub lookup-store-none :
    (key k : String) (v : FallbackWindow) (es : List Entry)
    → lookup key es ≡ none
    → lookup key (store k v es) ≡ none
lookup-store-none key k v [] h = refl
lookup-store-none key k v (e ∷ es) h = ground (arith, lookup-store-none key k v es)

pub store-OneEach :
    (k : String) (v : FallbackWindow) (es : List Entry) → OneEach es → OneEach (store k v es)
store-OneEach k v [] h = tt
store-OneEach k v (e ∷ es) h =
    (rw (store_key k v e) (lookup-store-none e.key k v es h.0), store-OneEach k v es h.1)

pub lookup-reclaim-none :
    (key : String) (now : ℕ) (es : List Entry)
    → lookup key es ≡ none
    → lookup key (reclaim_expired now es) ≡ none
lookup-reclaim-none key now [] h = refl
lookup-reclaim-none key now (e ∷ es) h = ground (arith, lookup-reclaim-none key now es)

pub reclaim-OneEach : (now : ℕ) (es : List Entry) → OneEach es → OneEach (reclaim_expired now es)
reclaim-OneEach now [] h = tt
reclaim-OneEach now (e ∷ es) h =
    if_elim OneEach (ltb e.bucket.reset_at now) _ _ (reclaim-OneEach now es h.1)
      (lookup-reclaim-none e.key now es h.0, reclaim-OneEach now es h.1)

-- A bucket is reclaimed only when it has run out.
pub lookup-reclaim :
    (key : String) (now : ℕ) (es : List Entry)
    → OneEach es
    → (lookup key (reclaim_expired now es) ≡ lookup key es)
      ⊎ ((w : FallbackWindow) × (lookup key es ≡ some w)
          × (w.reset_at < now)
          × (lookup key (reclaim_expired now es) ≡ none))
lookup-reclaim key now [] h = inl refl
lookup-reclaim key now (e ∷ es) h = elim (Bool-cases (str_eq e.key key)) [
  | inl s ↦ elim (Bool-cases (ltb e.bucket.reset_at now)) [
    | inl x ↦ inr (
      e.bucket,
      rw s refl,
      ground (arith, x),
      rw x (
          lookup-reclaim-none key now es
            (subst (λ k. lookup k es ≡ none) (same_key e.key key s) h.0)),
    )
    | inr x ↦ inl (ground (arith, s, x))
  ]
  | inr n ↦ elim (lookup-reclaim key now es h.1) [
    | inl i ↦ inl (ground (arith, n, i))
    | inr k ↦ inr (k.0, rw n k.1, k.2, ground (arith, n, k.3))
  ]
]
