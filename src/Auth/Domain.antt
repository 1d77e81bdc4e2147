-- ===== src/Auth/Domain.antt =====
-- internal/features/auth/domain/token.go, contract.go and platform/identity, and what the module
-- calls and does not implement: golang-jwt, Argon2id, base64, `fmt.Sscanf` and the random source.
use go_api_project_template.Prelude.{ℕ, String, Bool, Option, List}
use go_api_project_template.User.Domain.{Profile}

abbrev pub kind_access : String
kind_access = "access"

abbrev pub kind_refresh : String
kind_refresh = "refresh"

pub record Claims : Type 0 where
  pub user_id : ℕ
  pub role : String
  pub token_version : ℕ

-- `jwtClaims` with the registered claims that are set.
pub record JwtClaims : Type 0 where
  pub issuer : String
  pub subject : ℕ
  pub expires_at : Option ℕ
  pub issued_at : ℕ
  pub user_id : ℕ
  pub role : String
  pub kind : String
  pub token_version : ℕ

pub record TokenPair : Type 0 where
  pub access_token : String
  pub refresh_token : String
  pub expires_in : ℕ
  pub user : Profile

pub record Identity : Type 0 where
  pub user_id : ℕ
  pub role : String

-- The cost parameters in a stored hash.
pub record Cost : Type 0 where
  pub memory : ℕ
  pub iterations : ℕ
  pub threads : ℕ

pub record Hashing : Type 0 where
  -- Unpadded base64, and its decoder.
  pub encode : List ℕ → List ℕ
  pub decode : List ℕ → Option (List ℕ)
  -- `Sscanf` with "m=%d,t=%d,p=%d".
  pub scan : List ℕ → Option Cost
  -- `argon2.IDKey` of a password, a salt, a cost and a key length.
  pub id_key : String → List ℕ → Cost → ℕ → List ℕ

-- A token that golang-jwt has read: whether its header names an HMAC method, and its claims.
pub record ParsedToken : Type 0 where
  pub hmac : Bool
  pub claims : JwtClaims

pub record AuthEnv : Type 0 where
  pub hashing : Hashing
  -- The salt that the random source gives, and whether a hash slot is free before the request ends.
  pub salt : ℕ → List ℕ
  pub slot : ℕ → Bool
  -- `SignedString` under the secret of the tokens, and the token that a text with the right signature
  -- under that secret stands for.
  pub sign : JwtClaims → Option String
  pub parse : String → Option ParsedToken
  pub issuer : String
  pub access_ttl : ℕ
  pub refresh_ttl : ℕ
