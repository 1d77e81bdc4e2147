-- ===== src/Auth/Password.antt =====
-- internal/features/auth/password.go. Texts are lists of characters here; a key or a salt is a list
-- of bytes.
use go_api_project_template.Prelude.{
  ℕ, String, Bool, true, false, ◌&&◌, ◌||◌, Option, none, some, List, [], ◌∷◌, ◌++◌, length, ltb,
  ◌==◌, if◌then◌else◌,
}
use go_api_project_template.Auth.Domain.{Cost, Hashing}

abbrev pub argon2_salt_len : ℕ
argon2_salt_len = 16

abbrev pub argon2_key_len : ℕ
argon2_key_len = 32

abbrev pub own_cost : Cost
own_cost = record { memory = 19456; iterations = 2; threads = 1 }

-- "$argon2id$v=19$".
abbrev pub phc_prefix : List ℕ
phc_prefix =
    b'$' ∷ b'a' ∷ b'r' ∷ b'g' ∷ b'o' ∷ b'n' ∷ b'2' ∷ b'i' ∷ b'd' ∷ b'$' ∷ b'v' ∷ b'=' ∷ b'1' ∷ b'9'
    ∷ b'$' ∷ []

-- "m=19456,t=2,p=1".
abbrev pub own_params : List ℕ
own_params =
    b'm' ∷ b'=' ∷ b'1' ∷ b'9' ∷ b'4' ∷ b'5' ∷ b'6' ∷ b',' ∷ b't' ∷ b'=' ∷ b'2' ∷ b',' ∷ b'p' ∷ b'='
    ∷ b'1' ∷ []

abbrev pub max_stored_memory : ℕ
max_stored_memory = 262144

abbrev pub max_stored_iterations : ℕ
max_stored_iterations = 10

-- `strings.CutPrefix`.
unfoldable pub cut_prefix : List ℕ → List ℕ → Option (List ℕ)
cut_prefix [] s = some s
cut_prefix (c ∷ p) [] = none
cut_prefix (c ∷ p) (d ∷ s) = let rest = cut_prefix p s in if c == d then rest else none

abbrev onto_first : ℕ → List (List ℕ) → List (List ℕ)
onto_first c [] = (c ∷ []) ∷ []
onto_first c (f ∷ fs) = (c ∷ f) ∷ fs

-- `strings.Split` at one character.
unfoldable pub split : ℕ → List ℕ → List (List ℕ)
split sep [] = [] ∷ []
split sep (c ∷ s) = let rest = split sep s in if c == sep then [] ∷ rest else onto_first c rest

-- `subtle.ConstantTimeCompare`.
abbrev pub same_bytes : List ℕ → List ℕ → Bool
same_bytes [] [] = true
same_bytes [] (y ∷ ys) = false
same_bytes (x ∷ xs) [] = false
same_bytes (x ∷ xs) (y ∷ ys) = x == y && same_bytes xs ys

abbrev pub refused : Cost → Bool
refused c =
    ltb c.iterations 1
    || ltb c.threads 1
    || ltb max_stored_iterations c.iterations
    || ltb max_stored_memory c.memory

module _ (h : Hashing) where
  unfoldable pub hash_password : List ℕ → String → List ℕ
  hash_password salt password =
      let key = h.id_key password salt own_cost argon2_key_len in
      phc_prefix ++ (own_params ++ (b'$' ∷ (h.encode salt ++ (b'$' ∷ h.encode key))))

  abbrev pub compare_key : String → Cost → List ℕ → Option (List ℕ) → Option Bool
  compare_key password cost salt none = none
  compare_key password cost salt (some want) =
      if length want == argon2_key_len
      then some (same_bytes (h.id_key password salt cost argon2_key_len) want)
      else none

  abbrev pub with_salt : String → Cost → List ℕ → Option (List ℕ) → Option Bool
  with_salt password cost key none = none
  with_salt password cost key (some salt) = compare_key password cost salt (h.decode key)

  abbrev pub with_cost : String → List ℕ → List ℕ → Option Cost → Option Bool
  with_cost password salt key none = none
  with_cost password salt key (some cost) =
      if refused cost then none else with_salt password cost key (h.decode salt)

  abbrev pub with_fields : String → List (List ℕ) → Option Bool
  with_fields password (params ∷ salt ∷ key ∷ []) = with_cost password salt key (h.scan params)
  with_fields password other = none

  abbrev pub without_prefix : String → Option (List ℕ) → Option Bool
  without_prefix password none = none
  without_prefix password (some params) = with_fields password (split b'$' params)

  -- `none` is `errUnsupportedHash`.
  unfoldable pub verify_password : List ℕ → String → Option Bool
  verify_password encoded password = without_prefix password (cut_prefix phc_prefix encoded)
