-- ===== src/Auth/Requests.antt =====
-- The entry points that write to the users, as requests, and a run of them: internal/features/user and
-- internal/features/auth.
use go_api_project_template.Prelude.{ℕ, String, Bool, Option, List, [], ◌∷◌, if_elim}
use go_api_project_template.Errs.{Result, ok, err}
use go_api_project_template.Database.{World, pure, ◌>>=◌}
use go_api_project_template.Database.Keeps.{Keeps, Keeps-sql, Keeps-bind, keeps_rules}
use go_api_project_template.User.Domain.{User, Profile, NewUser, Credentials}
use go_api_project_template.User.Repository as Rows
use go_api_project_template.User.Service as Users
use go_api_project_template.User.Admins.{
  HasAdmin, insert_user-HasAdmin, update_names-HasAdmin, update_account-HasAdmin,
  delete_user-HasAdmin, increment_version-HasAdmin,
}
use go_api_project_template.Auth.Domain.{Claims, AuthEnv}
use go_api_project_template.Auth.Tokens.{issue, verify}
use go_api_project_template.Auth.Service as Auth
use go_api_project_template.Schema.{Db, Env, Action, Keeps-clock}

pub data UserRequest : Type 0 where
  update_profile : ℕ → String → String → Option String → UserRequest
  admin_update : ℕ → String → String → Option String → Option Bool → UserRequest
  update_role : ℕ → ℕ → String → UserRequest
  delete : ℕ → ℕ → UserRequest
  register : String → String → String → String → UserRequest
  login : String → String → UserRequest
  refresh : String → UserRequest
  authenticate : String → UserRequest

abbrev drop : {A : Type 0} → Action A → Action (Unit {0})
drop m = m >>= λ _. pure tt

unfoldable pub handle_user : Env → AuthEnv → UserRequest → Action (Unit {0})
handle_user env auth (update_profile id first last phone) =
    drop (Users.update_profile env id first last phone)
handle_user env auth (admin_update id first last phone active) =
    drop (Users.admin_update env id first last phone active)
handle_user env auth (update_role requester target role) =
    Users.update_role env requester target role
handle_user env auth (delete requester target) = Users.delete env requester target
handle_user env auth (register email password first last) =
    drop (Auth.register env auth email password first last)
handle_user env auth (login email password) = drop (Auth.login env auth email password)
handle_user env auth (refresh token) = drop (Auth.refresh env auth token)
handle_user env auth (authenticate token) = drop (Auth.authenticate env auth token)

unfoldable pub serve_users : Env → AuthEnv → List UserRequest → World Db → World Db
serve_users env auth [] w = w
serve_users env auth (r ∷ rs) w = serve_users env auth rs (handle_user env auth r w).1

module _ (env : Env) where
  row_by_id-Keeps : (id : ℕ) → Keeps HasAdmin (Rows.get_by_id env id)
  unfolding Rows.get_by_id
  row_by_id-Keeps id = search keeps_rules

  row_by_email-Keeps : (email : String) → Keeps HasAdmin (Rows.get_by_email env email)
  unfolding Rows.get_by_email
  row_by_email-Keeps email = search keeps_rules

  create-Keeps : (p : NewUser) → Keeps HasAdmin (Users.create env p)
  unfolding Users.create Rows.create
  create-Keeps p =
      Keeps-bind _ _
        (Keeps-bind _ _ (Keeps-clock HasAdmin env)
          (λ at. Keeps-sql env.fault _ (insert_user-HasAdmin at (Users.fresh_user p))))
        (λ u. search keeps_rules)

  names-Keeps : (u : User) → Keeps HasAdmin (Rows.update_profile env u)
  unfolding Rows.update_profile
  names-Keeps u =
      Keeps-bind _ _ (Keeps-sql env.fault _ (update_names-HasAdmin u)) (λ b. search keeps_rules)

  guarded-Keeps : (u : User) → Keeps HasAdmin (Rows.update_guarded env u)
  unfolding Rows.update_guarded
  guarded-Keeps u = Keeps-sql env.fault _ (update_account-HasAdmin u)

  delete-Keeps : (id : ℕ) → Keeps HasAdmin (Rows.delete env id)
  unfolding Rows.delete
  delete-Keeps id =
      Keeps-bind _ _ (Keeps-clock HasAdmin env)
        (λ at. Keeps-sql env.fault _ (delete_user-HasAdmin at id))

  version-Keeps : (id : ℕ) → Keeps HasAdmin (Rows.increment_token_version env id)
  unfolding Rows.increment_token_version
  version-Keeps id =
      Keeps-bind _ _ (Keeps-sql env.fault _ (increment_version-HasAdmin id))
        (λ b. search keeps_rules)

  module _ (auth : AuthEnv) where
    issue-Keeps :
        (c : Claims) (kind : String) (ttl : ℕ) → Keeps HasAdmin (issue env auth c kind ttl)
    unfolding issue
    issue-Keeps c kind ttl = search (keeps_rules, Keeps-clock)

    verify-Keeps : (token kind : String) → Keeps HasAdmin (verify env auth token kind)
    unfolding verify
    verify-Keeps token kind = search (keeps_rules, Keeps-clock)

    pair-Keeps : (p : Profile) → Keeps HasAdmin (Auth.build_token_pair env auth p)
    unfolding Auth.build_token_pair
    pair-Keeps p = search (keeps_rules, issue-Keeps)

    slot-Keeps : {A : Type 0} (a : A) → Keeps HasAdmin (Auth.with_hash_slot env auth a)
    unfolding Auth.with_hash_slot
    slot-Keeps a = record {
      at = λ w h. if_elim (λ (x : Result _ × World Db). HasAdmin x.1.db) (auth.slot w.tick) _ _ h h;
    }

    salt-Keeps : Keeps HasAdmin (Auth.read_salt env auth)
    unfolding Auth.read_salt
    salt-Keeps = record { at = λ w h. h }

    profile-Keeps : (c : Claims) → Keeps HasAdmin (Auth.active_profile env auth c)
    unfolding Auth.active_profile Users.get_profile
    profile-Keeps c = Keeps-bind _ _ (search (keeps_rules, row_by_id-Keeps)) (loaded_profile c)
      where
        loaded_profile : (c : Claims) (r : Result Profile) → Keeps HasAdmin (Auth.loaded c r)
        loaded_profile c (ok u) = search keeps_rules
        loaded_profile c (err e) = search keeps_rules

    login-Keeps : (email password : String) → Keeps HasAdmin (Auth.login env auth email password)
    unfolding Auth.login Users.get_by_email
    login-Keeps email password =
        Keeps-bind _ _ (search (keeps_rules, row_by_email-Keeps)) (with_account password)
      where
        with_account :
            (password : String) (r : Result Credentials)
            → Keeps HasAdmin (Auth.login_with env auth password r)
        with_account password (ok creds) = search (keeps_rules, slot-Keeps, pair-Keeps)
        with_account password (err e) = search (keeps_rules, slot-Keeps)

    handle_user-Keeps : (r : UserRequest) → Keeps HasAdmin (handle_user env auth r)
    unfolding handle_user Users.update_profile Users.admin_update Users.update_role Users.delete
        Auth.register Auth.refresh Auth.authenticate
    handle_user-Keeps (update_profile id first last phone) =
        search (keeps_rules, row_by_id-Keeps, names-Keeps) depth 9
    handle_user-Keeps (admin_update id first last phone active) =
        search (keeps_rules, row_by_id-Keeps, guarded-Keeps) depth 9
    handle_user-Keeps (update_role requester target role) =
        search (keeps_rules, row_by_id-Keeps, guarded-Keeps, version-Keeps) depth 9
    handle_user-Keeps (delete requester target) =
        search (keeps_rules, row_by_id-Keeps, delete-Keeps) depth 9
    handle_user-Keeps (register email password first last) =
        search (keeps_rules, salt-Keeps, slot-Keeps, create-Keeps, pair-Keeps) depth 9
    handle_user-Keeps (login email password) = search (keeps_rules, login-Keeps) depth 9
    handle_user-Keeps (refresh token) =
        search (keeps_rules, verify-Keeps, profile-Keeps, pair-Keeps) depth 9
    handle_user-Keeps (authenticate token) =
        search (keeps_rules, verify-Keeps, profile-Keeps) depth 9

-- After any user requests, each of whose statements may fail, an active admin that is not deleted is
-- left, if there was one before.
pub serve_users-HasAdmin :
    (env : Env) (auth : AuthEnv) (rs : List UserRequest) (w : World Db)
    → HasAdmin w.db
    → HasAdmin (serve_users env auth rs w).db
unfolding serve_users
serve_users-HasAdmin env auth [] w h = h
serve_users-HasAdmin env auth (r ∷ rs) w h =
    serve_users-HasAdmin env auth rs (handle_user env auth r w).1
      ((handle_user-Keeps env auth r).at w h)
