-- ===== src/Auth/Tokens.antt =====
-- internal/features/auth/adapter/jwt/tokens.go.
use go_api_project_template.Prelude.{
  ℕ, ◌+◌, Bool, false, not, ltb, String, Option, none, some, str_eq, if◌then◌else◌,
}
use go_api_project_template.Errs.{Err}
use go_api_project_template.Database.{pure, or_raise, ◌>>=◌}
use go_api_project_template.Auth.Domain.{Claims, JwtClaims, ParsedToken, AuthEnv}
use go_api_project_template.Schema.{Env, Action, clock}

abbrev pub jwt_claims : String → Claims → String → ℕ → ℕ → JwtClaims
jwt_claims issuer claims kind ttl now = record {
  issuer = issuer;
  subject = claims.user_id;
  expires_at = some (now + ttl);
  issued_at = now;
  user_id = claims.user_id;
  role = claims.role;
  kind = kind;
  token_version = claims.token_version;
}

-- `WithExpirationRequired`, and the expiry at a time.
abbrev pub unexpired : ℕ → Option ℕ → Bool
unexpired now none = false
unexpired now (some t) = ltb now t

-- The check of the signing method and the options of `ParseWithClaims`.
abbrev pub accepted : ℕ → String → Option ParsedToken → Option JwtClaims
accepted now issuer none = none
accepted now issuer (some t) =
    if not t.hmac
    then none
    else if not (unexpired now t.claims.expires_at)
    then none
    else if not (str_eq t.claims.issuer issuer)
    then none
    else some t.claims

-- The claims of a token of the wanted kind.
abbrev pub wanted : String → Option JwtClaims → Option Claims
wanted kind none = none
wanted kind (some c) =
    if str_eq c.kind kind
    then some (record { user_id = c.user_id; role = c.role; token_version = c.token_version })
    else none

module _ (env : Env) (auth : AuthEnv) where
  unfoldable pub issue : Claims → String → ℕ → Action String
  issue claims kind ttl = do
    now ← clock env
    or_raise Err.internal (auth.sign (jwt_claims auth.issuer claims kind ttl now))

  -- `none` is any of the errors of `Verify`, which its callers do not tell apart.
  unfoldable pub verify : String → String → Action (Option Claims)
  verify token kind = do
    now ← clock env
    pure (wanted kind (accepted now auth.issuer (auth.parse token)))
