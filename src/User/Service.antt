-- ===== src/User/Service.antt =====
-- internal/features/user/service.go.
use go_api_project_template.Prelude.{
  ℕ, String, Bool, true, Option, none, some, ◌==◌, str_eq, if◌then◌else◌,
}
use go_api_project_template.Errs.{Err}
use go_api_project_template.Database.{pure, raise, ◌>>=◌, ◌>>◌}
use go_api_project_template.User.Domain.{User, Profile, Credentials, NewUser, role_user, to_profile}
use go_api_project_template.User.Repository as Users
use go_api_project_template.User.Repository.{is_active_admin}
use go_api_project_template.Schema.{Env, Action}

-- An empty text leaves the field alone.
abbrev changed : String → String → String
changed new old = if str_eq new "" then old else new

abbrev set_if {ℓ} : {A : Type ℓ} → Option A → A → A
set_if none old = old
set_if (some a) old = a

abbrev pub renamed : String → String → Option String → User → User
renamed first last phone u = record u {
  first_name = changed first u.first_name;
  last_name = changed last u.last_name;
  phone = set_if phone u.phone;
}

-- The user that `Create` passes to the repository.
abbrev pub fresh_user : NewUser → User
fresh_user p = record {
  id = 0;
  email = p.email;
  password_hash = p.password_hash;
  first_name = p.first_name;
  last_name = p.last_name;
  phone = "";
  role = role_user;
  active = true;
  token_version = 0;
  created_at = 0;
  deleted_at = none;
}

-- What a guarded statement that took no row means: the guard held it back, or the row is gone.
abbrev not_applied : {A : Type 0} → User → Action A
not_applied u = if is_active_admin u then raise Err.bad_request else raise Err.not_found

module _ (env : Env) where
  unfoldable pub get_by_email : String → Action Credentials
  get_by_email email = do
    u ← Users.get_by_email env email
    pure (record { profile = to_profile u; password_hash = u.password_hash })

  unfoldable pub create : NewUser → Action Profile
  create p = do u ← Users.create env (fresh_user p); pure (to_profile u)

  unfoldable pub get_profile : ℕ → Action Profile
  get_profile id = do u ← Users.get_by_id env id; pure (to_profile u)

  unfoldable pub get_by_id : ℕ → Action User
  get_by_id id = Users.get_by_id env id

  unfoldable pub update_profile : ℕ → String → String → Option String → Action User
  update_profile id first last phone = do
    u ← Users.get_by_id env id
    Users.update_profile env (renamed first last phone u)
    pure (renamed first last phone u)

  unfoldable pub admin_update : ℕ → String → String → Option String → Option Bool → Action User
  admin_update id first last phone active = do
    u ← Users.get_by_id env id
    let u' = record (renamed first last phone u) { active = set_if active u.active }
    applied ← Users.update_guarded env u'
    if applied then pure u' else not_applied u

  unfoldable pub update_role : ℕ → ℕ → String → Action (Unit {0})
  update_role requester target role = if requester == target then raise Err.forbidden else (do
    u ← Users.get_by_id env target
    applied ← Users.update_guarded env (record u { role = role })
    if applied then Users.increment_token_version env target else not_applied u)

  unfoldable pub delete : ℕ → ℕ → Action (Unit {0})
  delete requester target = if requester == target then raise Err.forbidden else (do
    u ← Users.get_by_id env target
    applied ← Users.delete env target
    if applied then pure tt else not_applied u)
