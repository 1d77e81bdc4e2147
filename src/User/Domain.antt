-- ===== src/User/Domain.antt =====
-- internal/features/user/domain/user.go and contract.go.
use go_api_project_template.Prelude.{ℕ, String, Bool, Option, List}

abbrev pub role_user : String
role_user = "user"

abbrev pub role_admin : String
role_admin = "admin"

pub record User : Type 0 where
  pub id : ℕ
  pub email : String
  -- The stored hash, as its characters.
  pub password_hash : List ℕ
  pub first_name : String
  pub last_name : String
  pub phone : String
  pub role : String
  pub active : Bool
  pub token_version : ℕ
  pub created_at : ℕ
  pub deleted_at : Option ℕ

pub record Profile : Type 0 where
  pub id : ℕ
  pub email : String
  pub first_name : String
  pub last_name : String
  pub role : String
  pub active : Bool
  pub token_version : ℕ

-- A profile and the hash of its password.
pub record Credentials : Type 0 where
  pub profile : Profile
  pub password_hash : List ℕ

pub record NewUser : Type 0 where
  pub email : String
  pub password_hash : List ℕ
  pub first_name : String
  pub last_name : String

abbrev pub to_profile : User → Profile
to_profile u = record {
  id = u.id;
  email = u.email;
  first_name = u.first_name;
  last_name = u.last_name;
  role = u.role;
  active = u.active;
  token_version = u.token_version;
}
