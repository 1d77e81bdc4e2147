-- ===== src/Auth/PasswordLaws.antt =====
-- internal/features/auth/password.go: what is stored for a password verifies.
use go_api_project_template.Prelude.{
  ℕ, ◌≡◌, refl, ap, ◌∙◌, String, false, some, List, [], ◌∷◌, ◌++◌, length, contains, ==_refl, arith,
}
use go_api_project_template.Auth.Domain.{Hashing}
use go_api_project_template.Auth.Password.{
  cut_prefix, split, same_bytes, phc_prefix, own_params, own_cost, argon2_key_len, hash_password,
  verify_password, without_prefix, with_fields, with_cost, with_salt, compare_key,
}

-- What the module relies on: base64 decodes what it encodes and writes no dollar sign, `Sscanf` reads
-- the parameters that `Sprintf` wrote, and Argon2id gives a key of the length asked for.
pub record Lawful (h : Hashing) : Type 0 where
  pub decodes : (b : List ℕ) → h.decode (h.encode b) ≡ some b
  pub no_dollar : (b : List ℕ) → contains (h.encode b) b'$' ≡ false
  pub scans : h.scan own_params ≡ some own_cost
  pub key_len :
      (password : String) (salt : List ℕ)
      → length (h.id_key password salt own_cost argon2_key_len) ≡ argon2_key_len

cut_prefix-append : (p s : List ℕ) → cut_prefix p (p ++ s) ≡ some s
unfolding cut_prefix
cut_prefix-append [] s = refl
cut_prefix-append (c ∷ p) s = rw (==_refl c) (cut_prefix-append p s)

split-append :
    (sep : ℕ) (a b : List ℕ) → contains a sep ≡ false → split sep (a ++ (sep ∷ b)) ≡ a ∷ split sep b
unfolding split
split-append sep [] b h = rw (==_refl sep) refl
split-append sep (c ∷ a) b h = ground (arith, split-append sep a b)

split-whole : (sep : ℕ) (a : List ℕ) → contains a sep ≡ false → split sep a ≡ a ∷ []
unfolding split
split-whole sep [] h = refl
split-whole sep (c ∷ a) h = ground (arith, split-whole sep a)

-- The stored form of a password splits into its three fields.
fields_of :
    (a b c : List ℕ)
    → contains a b'$' ≡ false
    → contains b b'$' ≡ false
    → contains c b'$' ≡ false
    → split b'$' (a ++ (b'$' ∷ (b ++ (b'$' ∷ c)))) ≡ a ∷ b ∷ c ∷ []
fields_of a b c ha hb hc =
    rw (split-append b'$' a (b ++ (b'$' ∷ c)) ha, split-append b'$' b c hb, split-whole b'$' c hc)
      refl

-- A password checked against what is stored for another is accepted exactly if Argon2id gives both the
-- same key under the stored salt; a stored hash is never refused as unsupported.
pub verify-hash :
    (h : Hashing) (laws : Lawful h) (salt : List ℕ) (stored given : String)
    → verify_password h (hash_password h salt stored) given
      ≡ some (
          same_bytes
            (h.id_key given salt own_cost argon2_key_len)
            (h.id_key stored salt own_cost argon2_key_len))
unfolding hash_password verify_password
verify-hash h laws salt stored given =
    let key = h.id_key stored salt own_cost argon2_key_len in
    let tail = own_params ++ (b'$' ∷ (h.encode salt ++ (b'$' ∷ h.encode key))) in
    ap (without_prefix h given) (cut_prefix-append phc_prefix tail)
    ∙ ap (with_fields h given) (
        fields_of own_params (h.encode salt) (h.encode key) refl (laws.no_dollar salt)
          (laws.no_dollar key))
    ∙ ap (with_cost h given (h.encode salt) (h.encode key)) laws.scans
    ∙ ap (with_salt h given own_cost (h.encode key)) (laws.decodes salt)
    ∙ ap (compare_key h given own_cost salt) (laws.decodes key)
    ∙ rw (laws.key_len stored salt) refl
