-- ===== src/Auth/Authority.antt =====
-- internal/features/auth/service.go: for whom a token lets a request speak.
use go_api_project_template.Prelude.{
  ℕ, ◌<◌, Bool, subst, ◌≡◌, refl, sym, ap, ◌∙◌, ◌↔◌, String, true, false, not, List, Option, none,
  some, ◌==◌, ==_refl, find, str_eq, if◌then◌else◌, Bool-cases, inl, inr, arith,
}
use go_api_project_template.Errs.{Err, Result, ok, err}
use go_api_project_template.Database.{World, sql, pure, raise, attempt, or_raise, ◌>>=◌}
use go_api_project_template.User.Domain.{User}
use go_api_project_template.User.Repository as Rows
use go_api_project_template.User.Repository.{has_id}
use go_api_project_template.User.Service as Users
use go_api_project_template.Auth.Domain.{JwtClaims, ParsedToken, Identity, AuthEnv, kind_access}
use go_api_project_template.Auth.Tokens.{verify, accepted, unexpired}
use go_api_project_template.Auth.Service.{authenticate, active_profile}
use go_api_project_template.Schema.{Db, Env, clock}

-- No statement can fail at this world.
pub record Healthy (env : Env) (w : World Db) : Type 0 where
  pub sound : w.aborted ≡ false
  pub served : env.fault w.tick ≡ false

-- The account that a token's claims name, as the rows stand: it exists and is not deleted, is active,
-- and its token version is the token's. The role is the row's, not the token's.
pub record Entitled (c : JwtClaims) (us : List User) (who : Identity) : Type 0 where
  pub row : User
  pub access : str_eq c.kind kind_access ≡ true
  pub found : find (has_id c.user_id) us ≡ some row
  pub active : row.active ≡ true
  pub version : row.token_version ≡ c.token_version
  pub speaks : who ≡ record { user_id = c.user_id; role = row.role }

abbrev judged : JwtClaims → Option User → Result Identity
judged c none = err Err.invalid_token
judged c (some u) =
    if not u.active
    then err Err.account_deactivated
    else if not (u.token_version == c.token_version)
    then err Err.token_revoked
    else ok (record { user_id = c.user_id; role = u.role })

abbrev decided : List User → Option JwtClaims → Result Identity
decided us none = err Err.invalid_token
decided us (some c) =
    if str_eq c.kind kind_access
    then judged c (find (has_id c.user_id) us)
    else err Err.invalid_token

module _ (env : Env) (auth : AuthEnv) (token : String) (w : World Db) where
  authenticate_run :
      Healthy env w
      → (authenticate env auth token w).0
        ≡ decided w.db.users (accepted (env.now w.tick) auth.issuer (auth.parse token))
  unfolding authenticate verify active_profile Users.get_profile Rows.get_by_id clock sql or_raise
      pure raise attempt ◌>>=◌
  authenticate_run h = ground (arith, h.sound, h.served)

-- The token as `Verify` wants it: signed by an HMAC method, with an expiry that is not reached, and from
-- the issuer of this service.
pub record Accepted (now : ℕ) (issuer : String) (o : Option ParsedToken) (c : JwtClaims)
    : Type 0 where
  pub signed : o ≡ some (record { hmac = true; claims = c })
  pub expiry : ℕ
  pub expires : c.expires_at ≡ some expiry
  pub lives : now < expiry
  pub issued : str_eq c.issuer issuer ≡ true

module _ (now : ℕ) (issuer : String) where
  alive_claims :
      (c : JwtClaims) (o : Option ℕ)
      → c.expires_at ≡ o
      → unexpired now o ≡ true
      → str_eq c.issuer issuer ≡ true
      → Accepted now issuer (some (record { hmac = true; claims = c })) c
  alive_claims c none e l i = absurd (ground arith)
  alive_claims c (some t) e l i = record {
    signed = refl;
    expiry = t;
    expires = e;
    lives = ground arith;
    issued = i;
  }

  hmac_claims :
      (b : Bool) (c c' : JwtClaims)
      → accepted now issuer (some (record { hmac = b; claims = c })) ≡ some c'
      → Accepted now issuer (some (record { hmac = b; claims = c })) c'
  hmac_claims false c c' e = absurd (ground arith)
  hmac_claims true c c' e = elim (Bool-cases (unexpired now c.expires_at)) [
    | inr past ↦ absurd (ground arith)
    | inl lives ↦ elim (Bool-cases (str_eq c.issuer issuer)) [
      | inr other ↦ absurd (ground arith)
      | inl ours ↦
          let same : c ≡ c' = ground arith in
          subst (Accepted now issuer (some (record { hmac = true; claims = c }))) same
            (alive_claims c c.expires_at refl lives ours)
    ]
  ]

  pub accepted-Accepted :
      (o : Option ParsedToken) (c : JwtClaims)
      → accepted now issuer o ≡ some c
      → Accepted now issuer o c
  accepted-Accepted none c e = absurd (ground arith)
  accepted-Accepted (some t) c e = hmac_claims t.hmac t.claims c e

  Accepted-accepted :
      (o : Option ParsedToken) (c : JwtClaims)
      → Accepted now issuer o c
      → accepted now issuer o ≡ some c
  Accepted-accepted o c a = rw (a.signed, a.expires, a.issued) (ground (arith, a.lives))

judged-ok :
    (c : JwtClaims) (us : List User) (who : Identity) (o : Option User)
    → str_eq c.kind kind_access ≡ true
    → find (has_id c.user_id) us ≡ o
    → judged c o ≡ ok who
    → Entitled c us who
judged-ok c us who none k f e = absurd (cc)
judged-ok c us who (some u) k f e = record {
  row = u;
  access = k;
  found = f;
  active = ground arith;
  version = ground arith;
  speaks = ground arith;
}

Entitled-judged :
    (c : JwtClaims) (us : List User) (who : Identity)
    → Entitled c us who
    → decided us (some c) ≡ ok who
Entitled-judged c us who e =
    rw (e.access, e.found, e.active, e.version, ==_refl c.token_version) (cc e.speaks)

decided-ok :
    (us : List User) (who : Identity) (o : Option JwtClaims)
    → decided us o ≡ ok who
    → (c : JwtClaims) × (o ≡ some c) × Entitled c us who
decided-ok us who none e = absurd (cc)
decided-ok us who (some c) e = elim (Bool-cases (str_eq c.kind kind_access)) [
  | inl k ↦ (c, refl, judged-ok c us who (find (has_id c.user_id) us) k refl (ground arith))
  | inr k ↦ absurd (ground arith)
]

-- Where no statement fails, a request is let in as `who` exactly if its token parses with an
-- HMAC method, an expiry that is not reached and this service's issuer, is an access token, and names an account that exists, is active and has the token's version; `who` is then that
-- account with the role that its row has now.
pub authenticate_iff :
    (env : Env) (auth : AuthEnv) (token : String) (w : World Db) (who : Identity)
    → Healthy env w
    → ((authenticate env auth token w).0 ≡ ok who) ↔ (
        (c : JwtClaims) × Accepted (env.now w.tick) auth.issuer (auth.parse token) c
        × Entitled c w.db.users who)
authenticate_iff env auth token w who h =
    let now = env.now w.tick in
    let o = accepted now auth.issuer (auth.parse token) in
    (
      (λ e.
          let (c, k, entitled) =
            decided-ok w.db.users who o (sym (authenticate_run env auth token w h) ∙ e) in
          (c, accepted-Accepted now auth.issuer (auth.parse token) c k, entitled)),
      (λ e.
          authenticate_run env auth token w h
          ∙ ap (decided w.db.users) (Accepted-accepted now auth.issuer (auth.parse token) e.0 e.1)
          ∙ Entitled-judged e.0 w.db.users who e.2),
    )
