-- ===== src/Auth/Revocation.antt =====
-- internal/features/user/service.go and auth/service.go: a change of role ends the tokens that were
-- issued before it.
use go_api_project_template.Prelude.{
  true, ℕ, suc, ◌≤◌, ◌≡◌, refl, sym, ap, ◌∙◌, subst, String, Bool, false, not, Option, none, some,
  List, [], ◌∷◌, ◌==◌, find, exists, ◌&&◌, str_eq, if_elim, Bool-cases, inl, inr, arith,
}
use go_api_project_template.Errs.{Err, Result, ok, err, is_ok}
use go_api_project_template.Database.{World, sql, pure, raise, attempt, or_raise, ◌>>=◌}
use go_api_project_template.Database.Ensures.{
  Ensures, Settled, Ensures-pure, Ensures-raise, Ensures-if, Ensures-sql, Ensures-or_raise,
  Ensures-bind, bind-ok, pure-bind, Promise,
}
use go_api_project_template.User.Domain.{User, Profile}
use go_api_project_template.User.Repository as Rows
use go_api_project_template.User.Repository.{
  has_id, change_rows, one_version_up, update_account, increment_version, may_update, with_account,
  active_admins, known_role, is_active_admin, alive,
}
use go_api_project_template.User.Service as Users
use go_api_project_template.User.Service.{update_role}
use go_api_project_template.Auth.Domain.{
  Claims, JwtClaims, ParsedToken, TokenPair, Identity, AuthEnv, kind_access, kind_refresh,
}
use go_api_project_template.Auth.Authority.{accepted-Accepted}
use go_api_project_template.Auth.Tokens.{accepted, verify, wanted}
use go_api_project_template.Auth.Service.{authenticate, refresh, active_profile}
use go_api_project_template.Schema.{Db, Env, Action, clock}

abbrev version_in : Option User → Option ℕ
version_in none = none
version_in (some u) = some u.token_version

-- The token version of an account that exists.
abbrev pub version_of : ℕ → List User → Option ℕ
version_of id us = version_in (find (has_id id) us)

abbrev pub next_version : Option ℕ → Option ℕ
next_version none = none
next_version (some v) = some (suc v)

change_rows-version_of :
    (id : ℕ) (p : User → Bool) (f : User → User)
    → ((u : User) → has_id id (f u) ≡ has_id id u)
    → ((u : User) → (f u).token_version ≡ u.token_version)
    → (us : List User) → version_of id (change_rows p f us) ≡ version_of id us
change_rows-version_of id p f hi hv [] = refl
change_rows-version_of id p f hi hv (u ∷ us) =
    ground (arith, hi u, hv u, change_rows-version_of id p f hi hv us)

one_version_up-version_of :
    (id : ℕ) (us : List User)
    → version_of id (change_rows (has_id id) one_version_up us) ≡ next_version (version_of id us)
one_version_up-version_of id [] = refl
one_version_up-version_of id (u ∷ us) = ground (arith, one_version_up-version_of id us)

module _ (id : ℕ) (o : Option ℕ) where
  abbrev At : Db → Type 0
  At d = version_of id d.users ≡ o

  abbrev Raised : Db → Type 0
  Raised d = version_of id d.users ≡ next_version o

  update_account-At :
      (u : User) (d : Db) → At d → Settled (λ (b : Bool) d'. At d') (update_account u d)
  unfolding update_account
  update_account-At u d h =
      if_elim (Settled (λ (b : Bool) d'. At d'))
        (exists (may_update (active_admins d.users) u) d.users && not (known_role u.role)) _ _ tt
        (change_rows-version_of id (may_update (active_admins d.users) u) (with_account u)
            (λ r. refl) (λ r. refl) d.users
          ∙ h)

  increment-Raised :
      (env : Env) → Ensures At (Rows.increment_token_version env id) (λ (x : Unit {0}) d. Raised d)
  unfolding Rows.increment_token_version increment_version
  increment-Raised env =
      Ensures-bind (λ (b : Bool) d. Raised d) _ _
        (Ensures-sql env.fault _ (λ d h.
          if_elim (Settled (λ (b : Bool) d'. Raised d')) (exists _ d.users) _ _ tt
            (one_version_up-version_of id d.users ∙ ap next_version h)))
        (λ b. Ensures-if b _ _ (Ensures-pure tt (λ d h. h)) (Ensures-raise Err.not_found))

  -- `update_role` that returns has raised the version by one.
  update_role-Raised :
      (env : Env) (requester : ℕ) (role : String)
      → Ensures At (update_role env requester id role) (λ (x : Unit {0}) d. Raised d)
  unfolding update_role Rows.get_by_id Rows.update_guarded
  update_role-Raised env requester role =
      Ensures-if (requester == id) _ _ (Ensures-raise Err.forbidden) (
        Ensures-bind (λ (u : User) d. At d) _ _
          (Ensures-bind (λ (r : Option User) d. At d) _ _ (Ensures-sql env.fault _ (λ d h. h))
            (λ r. Ensures-or_raise Err.not_found r (λ a e d h. h)))
          (λ u.
            Ensures-bind (λ (b : Bool) d. At d) _ _
              (Ensures-sql env.fault _ (update_account-At (record u { role = role })))
              (λ b. Ensures-if b _ _ (increment-Raised env) (
                Ensures-if (is_active_admin u) _ _ (Ensures-raise Err.bad_request)
                  (Ensures-raise Err.not_found)))))

abbrev named : JwtClaims → Claims
named c = record { user_id = c.user_id; role = c.role; token_version = c.token_version }

module _ (env : Env) (auth : AuthEnv) where
  -- An account that is let through has the version of the claims.
  active_profile-version_of :
      (claims : Claims) (w : World Db) (p : Profile)
      → (active_profile env auth claims w).0 ≡ ok p
      → version_of claims.user_id w.db.users ≡ some claims.token_version
  unfolding active_profile Users.get_profile Rows.get_by_id sql or_raise pure raise attempt ◌>>=◌
  active_profile-version_of claims w p h = ground (arith)

  -- What a token has to say where a check of it is followed by anything that returns.
  module _ {B : Type 0} (kind : String) (k : Claims → Profile → Action B) where
    abbrev check : Option Claims → Action B
    check o = do
      claims ← or_raise Err.invalid_token o
      u ← active_profile env auth claims
      k claims u

    check-raises : (w : World Db) (b : B) → (check none w).0 ≡ ok b → ⊥
    unfolding raise or_raise ◌>>=◌
    check-raises w b h = cc

    check-version_of :
        (claims : Claims) (w : World Db) (b : B)
        → (check (some claims) w).0 ≡ ok b
        → version_of claims.user_id w.db.users ≡ some claims.token_version
    unfolding or_raise
    check-version_of claims w b h =
        let next = λ (x : Claims). active_profile env auth x >>= λ u. k x u in
        let h' = sym (ap (λ (x : Result B × World Db). x.0) (pure-bind claims next w)) ∙ h in
        let found = bind-ok (active_profile env auth claims) (k claims) w b h' in
        active_profile-version_of claims w found.0 found.1

    checked :
        (o : Option JwtClaims) (w : World Db) (b : B)
        → (check (wanted kind o) w).0 ≡ ok b
        → (c : JwtClaims) × (o ≡ some c) × (version_of c.user_id w.db.users ≡ some c.token_version)
    checked none w b h = absurd (check-raises w b h)
    checked (some c) w b h = elim (Bool-cases (str_eq c.kind kind)) [
      | inl t ↦ (c, refl, check-version_of (named c) w b (rw t at h))
      | inr f ↦ absurd (check-raises w b (rw f at h))
    ]

  authenticate-checked :
      (token : String) (w : World Db) (who : Identity)
      → (authenticate env auth token w).0 ≡ ok who
      → (c : JwtClaims) × (accepted (env.now w.tick) auth.issuer (auth.parse token) ≡ some c)
        × (version_of c.user_id w.db.users ≡ some c.token_version)
  unfolding authenticate verify clock pure ◌>>=◌
  authenticate-checked token w who h = checked kind_access _ _ w who h

  refresh-checked :
      (token : String) (w : World Db) (pair : TokenPair)
      → (refresh env auth token w).0 ≡ ok pair
      → (c : JwtClaims) × (accepted (env.now w.tick) auth.issuer (auth.parse token) ≡ some c)
        × (version_of c.user_id w.db.users ≡ some c.token_version)
  unfolding refresh verify clock pure ◌>>=◌
  refresh-checked token w pair h = checked kind_refresh _ _ w pair h

refused : {A : Type 0} (r : Result A) → ((a : A) → r ≡ ok a → ⊥) → is_ok r ≡ false
refused (ok a) h = absurd (h a refl)
refused (err e) h = refl

-- A token no newer than the version before the change names an account whose version is past it.
stale :
    (t : ParsedToken) (c : JwtClaims) (o : Option ParsedToken) (us : List User) (v : ℕ)
    → o ≡ some t
    → version_of t.claims.user_id us ≡ some (suc v)
    → t.claims.token_version ≤ v
    → o ≡ some (record { hmac = true; claims = c })
    → version_of c.user_id us ≡ some c.token_version
    → ⊥
stale t c o us v e h l read k =
    let same : t.claims ≡ c = ground (arith, read) in
    let version : version_of t.claims.user_id us ≡ some t.claims.token_version =
      subst (λ (x : JwtClaims). version_of x.user_id us ≡ some x.token_version) (sym same) k in
    let equal : some (suc v) ≡ some t.claims.token_version = sym h ∙ version in ground arith

-- Once `UpdateRole` has returned without an error, no token with the version that the account had
-- before, or an older one, authenticates a request or is refreshed, whatever else fails.
pub update_role-revokes :
    (env : Env) (auth : AuthEnv) (requester target v : ℕ) (role token : String) (w w' : World Db)
    (t : ParsedToken)
    → (update_role env requester target role w).0 ≡ ok tt
    → version_of target w.db.users ≡ some v
    → w'.db.users ≡ (update_role env requester target role w).1.db.users
    → auth.parse token ≡ some t
    → t.claims.user_id ≡ target
    → t.claims.token_version ≤ v
    → (is_ok (authenticate env auth token w').0 ≡ false)
      × (is_ok (refresh env auth token w').0 ≡ false)
update_role-revokes env auth requester target v role token w w' t done before after parsed own old =
    let at = (update_role-Raised target (some v) env requester role).at w before in
    let raised =
      subst
        (λ r.
          Promise (λ (x : Unit {0}) d. Raised target (some v) d) r
            (update_role env requester target role w).1.db)
        done at in
    let next : version_of t.claims.user_id w'.db.users ≡ some (suc v) =
      ap (λ i. version_of i w'.db.users) own ∙ ap (version_of target) after ∙ raised in
    (
      refused _ (λ who h.
          let k = authenticate-checked env auth token w' who h in
          let read = accepted-Accepted (env.now w'.tick) auth.issuer (auth.parse token) k.0 k.1 in
          stale t k.0 _ w'.db.users v parsed next old read.signed k.2),
      refused _ (λ pair h.
          let k = refresh-checked env auth token w' pair h in
          let read = accepted-Accepted (env.now w'.tick) auth.issuer (auth.parse token) k.0 k.1 in
          stale t k.0 _ w'.db.users v parsed next old read.signed k.2),
    )
