-- ===== src/Auth/Service.antt =====
-- internal/features/auth/service.go and errors.go.
use go_api_project_template.Prelude.{
  ℕ, String, Bool, false, not, Option, none, some, List, ◌==◌, if◌then◌else◌,
}
use go_api_project_template.Errs.{Err, Result, ok, err, is}
use go_api_project_template.Database.{pure, raise, attempt, or_raise, ◌>>=◌, ◌>>◌}
use go_api_project_template.User.Domain.{Profile, Credentials}
use go_api_project_template.User.Service as Users
use go_api_project_template.Auth.Domain.{
  Claims, TokenPair, Identity, AuthEnv, kind_access, kind_refresh,
}
use go_api_project_template.Auth.Password.{hash_password, verify_password}
use go_api_project_template.Auth.Tokens.{issue, verify}
use go_api_project_template.Schema.{Env, Action}

abbrev pub claims_of : Profile → Claims
claims_of p = record { user_id = p.id; role = p.role; token_version = p.token_version }

-- What the check of the password says.
abbrev accepted : Option Bool → Bool
accepted none = false
accepted (some b) = b

-- The checks on a loaded account.
abbrev pub current : Claims → Profile → Action Profile
current claims u =
    if not u.active
    then raise Err.account_deactivated
    else if not (u.token_version == claims.token_version)
    then raise Err.token_revoked
    else pure u

abbrev pub loaded : Claims → Result Profile → Action Profile
loaded claims (ok u) = current claims u
loaded claims (err e) = if is e Err.not_found then raise Err.invalid_token else raise Err.internal

module _ (env : Env) (auth : AuthEnv) where
  -- `withHashSlot` around work that gives a value.
  unfoldable pub with_hash_slot : {A : Type 0} → A → Action A
  unfolding pure raise
  with_hash_slot a w = if auth.slot w.tick then pure a w else raise Err.internal w

  unfoldable pub build_token_pair : Profile → Action TokenPair
  build_token_pair p = do
    access ← issue env auth (claims_of p) kind_access auth.access_ttl
    refresh ← issue env auth (claims_of p) kind_refresh auth.refresh_ttl
    pure (record {
      access_token = access;
      refresh_token = refresh;
      expires_in = auth.access_ttl;
      user = p;
    })

  abbrev pub signed_in : Profile → Action TokenPair
  signed_in p = if not p.active then raise Err.account_deactivated else build_token_pair p

  -- The account is looked up first; for an unknown address a fixed hash is checked in its place.
  abbrev pub login_with : String → Result Credentials → Action TokenPair
  login_with password (err e) = do with_hash_slot tt; raise Err.invalid_credentials
  login_with password (ok creds) = do
    matches ← with_hash_slot (verify_password auth.hashing creds.password_hash password)
    if accepted matches then signed_in creds.profile else raise Err.invalid_credentials

  unfoldable pub login : String → String → Action TokenPair
  login email password = do
    found ← attempt (Users.get_by_email env email)
    login_with password found

  unfoldable pub read_salt : Action (List ℕ)
  read_salt w = (ok (auth.salt w.tick), w)

  unfoldable pub register : String → String → String → String → Action TokenPair
  register email password first last = do
    salt ← read_salt
    hash ← with_hash_slot (hash_password auth.hashing salt password)
    user ←
        Users.create env
          (record { email = email; password_hash = hash; first_name = first; last_name = last })
    build_token_pair user

  unfoldable pub active_profile : Claims → Action Profile
  active_profile claims = do
    found ← attempt (Users.get_profile env claims.user_id)
    loaded claims found

  unfoldable pub refresh : String → Action TokenPair
  refresh token = do
    found ← verify env auth token kind_refresh
    claims ← or_raise Err.invalid_token found
    u ← active_profile claims
    build_token_pair u

  unfoldable pub authenticate : String → Action Identity
  authenticate token = do
    found ← verify env auth token kind_access
    claims ← or_raise Err.invalid_token found
    u ← active_profile claims
    pure (record { user_id = claims.user_id; role = u.role })
