-- ===== src/User/Repository.antt =====
-- internal/features/user/adapter/postgres/repository.go: each method is one statement.
-- The table is that of create_users.sql: addresses are unique, also over deleted rows, and a role is
-- `user` or `admin`. The two guarded statements count the active admins in the same statement.
use go_api_project_template.Prelude.{
  ℕ, suc, ◌+◌, String, Bool, true, false, not, ◌&&◌, ◌||◌, none, some, List, [], ◌∷◌, ◌++◌, ltb,
  leb, ◌==◌, find, exists, str_eq, if◌then◌else◌,
}
use go_api_project_template.Inventory.Levels.{int_max}
use go_api_project_template.Errs.{Err}
use go_api_project_template.Database.{Outcome, done, violation, sql, pure, raise, or_raise, ◌>>=◌}
use go_api_project_template.User.Domain.{User, role_user, role_admin}
use go_api_project_template.Schema.{Db, Env, Action, clock}

abbrev pub alive : User → Bool
alive u = elim u.deleted_at [ none ↦ true | some t ↦ false ]

abbrev pub has_id : ℕ → User → Bool
has_id id u = u.id == id && alive u

abbrev has_email : String → User → Bool
has_email email u = str_eq u.email email

abbrev live_email : String → User → Bool
live_email email u = has_email email u && alive u

abbrev pub known_role : String → Bool
known_role role = str_eq role role_user || str_eq role role_admin

abbrev pub is_active_admin : User → Bool
is_active_admin u = str_eq u.role role_admin && u.active

-- `activeAdminsCTE`.
abbrev pub active_admins : List User → ℕ
active_admins [] = 0
active_admins (u ∷ us) =
    if is_active_admin u && alive u then suc (active_admins us) else active_admins us

-- The row of a new user; the statement does not write `token_version` and `deleted_at`.
abbrev pub new_row : ℕ → ℕ → User → User
new_row id at u = record u { id = id; token_version = 0; created_at = at; deleted_at = none }

unfoldable pub insert_user : ℕ → User → Db → Outcome Db User
insert_user at u d =
    if not (known_role u.role)
    then violation Err.internal
    else if exists (has_email u.email) d.users
    then violation Err.conflict
    else (let row = new_row d.next_id at u in
        done row (record d { users = d.users ++ row ∷ []; next_id = suc d.next_id }))

abbrev pub change_rows : (User → Bool) → (User → User) → List User → List User
change_rows p f [] = []
change_rows p f (u ∷ us) = (if p u then f u else u) ∷ change_rows p f us

abbrev pub with_names : User → User → User
with_names u row = record row {
  first_name = u.first_name;
  last_name = u.last_name;
  phone = u.phone;
}

abbrev pub with_account : User → User → User
with_account u row = record (with_names u row) { role = u.role; active = u.active }

abbrev pub one_version_up : User → User
one_version_up row = record row { token_version = row.token_version + 1 }

abbrev pub as_deleted : ℕ → User → User
as_deleted at row = record row { deleted_at = some at }

-- An UPDATE of the rows that its WHERE takes, and whether there were any.
abbrev pub update_rows : (User → Bool) → (User → User) → Db → Outcome Db Bool
update_rows p f d = done (exists p d.users) (record d { users = change_rows p f d.users })

unfoldable pub update_names : User → Db → Outcome Db Bool
update_names u = update_rows (has_id u.id) (with_names u)

-- The WHERE of `UpdateGuarded`, where `admins` active admins are found.
abbrev pub may_update : ℕ → User → User → Bool
may_update admins u row =
    has_id u.id row
    && (not (str_eq row.role role_admin)
        || (str_eq u.role role_admin && u.active)
        || ltb 1 admins
        || not (is_active_admin row))

unfoldable pub update_account : User → Db → Outcome Db Bool
update_account u d =
    if exists (may_update (active_admins d.users) u) d.users && not (known_role u.role)
    then violation Err.internal
    else update_rows (may_update (active_admins d.users) u) (with_account u) d

-- The WHERE of `Delete`.
abbrev pub may_delete : ℕ → ℕ → User → Bool
may_delete admins id row =
    has_id id row && (not (str_eq row.role role_admin) || ltb 1 admins || not (is_active_admin row))

unfoldable pub delete_user : ℕ → ℕ → Db → Outcome Db Bool
delete_user at id d = update_rows (may_delete (active_admins d.users) id) (as_deleted at) d

-- A taken row whose INT column `token_version` has no next value.
abbrev last_version : ℕ → User → Bool
last_version id u = has_id id u && leb int_max u.token_version

unfoldable pub increment_version : ℕ → Db → Outcome Db Bool
increment_version id d =
    if exists (last_version id) d.users
    then violation Err.internal
    else update_rows (has_id id) one_version_up d

module _ (env : Env) where
  -- The user with the key and the times that the database draws.
  unfoldable pub create : User → Action User
  create u = do at ← clock env; sql env.fault (insert_user at u)

  unfoldable pub get_by_id : ℕ → Action User
  get_by_id id = do
    row ← sql env.fault (λ (d : Db). done (find (has_id id) d.users) d)
    or_raise Err.not_found row

  unfoldable pub get_by_email : String → Action User
  get_by_email email = do
    row ← sql env.fault (λ (d : Db). done (find (live_email email) d.users) d)
    or_raise Err.not_found row

  unfoldable pub update_profile : User → Action (Unit {0})
  update_profile u = do
    found ← sql env.fault (update_names u)
    if found then pure tt else raise Err.not_found

  unfoldable pub update_guarded : User → Action Bool
  update_guarded u = sql env.fault (update_account u)

  unfoldable pub delete : ℕ → Action Bool
  delete id = do at ← clock env; sql env.fault (delete_user at id)

  unfoldable pub count_admins : Action ℕ
  count_admins = sql env.fault (λ (d : Db). done (active_admins d.users) d)

  unfoldable pub increment_token_version : ℕ → Action (Unit {0})
  increment_token_version id = do
    found ← sql env.fault (increment_version id)
    if found then pure tt else raise Err.not_found
