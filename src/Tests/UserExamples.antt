-- ===== src/Tests/UserExamples.antt =====
-- The theorems on accounts and tokens at the small world.
use go_api_project_template.Prelude.{
  ℕ, ◌+◌, ◌≡◌, ◌↔◌, refl, arith, true, false, String, some, List, [], ◌∷◌, ◌-◌, ap, contains,
}
use go_api_project_template.Errs.{ok, is_ok}
use go_api_project_template.Database.{World, sql, pure, raise, or_raise, ◌>>=◌}
use go_api_project_template.User.Repository as Rows
use go_api_project_template.User.Service.{update_role}
use go_api_project_template.User.Admins.{HasAdmin}
use go_api_project_template.Auth.Domain.{Hashing, JwtClaims, AuthEnv}
use go_api_project_template.Auth.Password.{same_bytes, own_cost, hash_password, verify_password}
use go_api_project_template.Auth.PasswordLaws.{Lawful, verify-hash}
use go_api_project_template.Auth.Service.{authenticate, refresh}
use go_api_project_template.Auth.Authority.{Accepted, Entitled, authenticate_iff}
use go_api_project_template.Auth.Revocation.{update_role-revokes}
use go_api_project_template.Auth.Requests.{UserRequest, serve_users, serve_users-HasAdmin}
use go_api_project_template.Schema.{Db}
use go_api_project_template.Tests.Sample.{calm, fourth_fails, start}

abbrev key_of : String → List ℕ
key_of password =
    1 ∷ 2 ∷ 3 ∷ 4 ∷ 5 ∷ 6 ∷ 7 ∷ 8 ∷ 1 ∷ 2 ∷ 3 ∷ 4 ∷ 5 ∷ 6 ∷ 7 ∷ 8 ∷ 1 ∷ 2 ∷ 3 ∷ 4 ∷ 5 ∷ 6 ∷ 7 ∷ 8
    ∷ 1 ∷ 2 ∷ 3 ∷ 4 ∷ 5 ∷ 6 ∷ 7 ∷ 8 ∷ []

-- A byte is shifted past the dollar sign.
abbrev shifted : List ℕ → List ℕ
shifted [] = []
shifted (x ∷ xs) = (x + 40) ∷ shifted xs

abbrev unshifted : List ℕ → List ℕ
unshifted [] = []
unshifted (x ∷ xs) = (x - 40) ∷ unshifted xs

abbrev plain : Hashing
plain = record {
  encode = shifted;
  decode = λ b. some (unshifted b);
  scan = λ s. some own_cost;
  id_key = λ p s c n. key_of p;
}

shifted_back : (b : List ℕ) → unshifted (shifted b) ≡ b
shifted_back [] = refl
shifted_back (x ∷ xs) = ground (arith, shifted_back xs)

shifted_clean : (b : List ℕ) → contains (shifted b) b'$' ≡ false
shifted_clean [] = refl
shifted_clean (x ∷ xs) = ground (arith, shifted_clean xs)

plain-Lawful : Lawful plain
plain-Lawful = record {
  decodes = λ b. ap some (shifted_back b);
  no_dollar = shifted_clean;
  scans = refl;
  key_len = λ p s. refl;
}

verify-hash_example :
    verify_password plain (hash_password plain (7 ∷ []) "secret") "guess"
    ≡ some (same_bytes (key_of "guess") (key_of "secret"))
verify-hash_example = verify-hash plain plain-Lawful (7 ∷ []) "secret" "guess"

-- The claims of an access token of the user 41 at version 0.
abbrev user_claims : JwtClaims
user_claims = record {
  issuer = "api";
  subject = 41;
  expires_at = some 5000;
  issued_at = 900;
  user_id = 41;
  role = "user";
  kind = "access";
  token_version = 0;
}

abbrev simple : AuthEnv
simple = record {
  hashing = plain;
  salt = λ n. 7 ∷ [];
  slot = λ n. true;
  sign = λ c. some "token";
  parse = λ token. some (record { hmac = true; claims = user_claims });
  issuer = "api";
  access_ttl = 900;
  refresh_ttl = 9000;
}

authenticate_iff_example :
    ((authenticate calm simple "token" start).0 ≡ ok (record { user_id = 41; role = "user" })) ↔ (
      (c : JwtClaims) × Accepted
        (calm.now 0)
        "api"
        (some (record { hmac = true; claims = user_claims }))
        c
      × Entitled c start.db.users (record { user_id = 41; role = "user" }))
authenticate_iff_example =
    authenticate_iff calm simple "token" start (record { user_id = 41; role = "user" })
      (record { sound = refl; served = refl })

abbrev promoted : World Db
unfolding update_role
promoted = (update_role calm 40 41 "admin" start).1

update_role-revokes_example :
    (is_ok (authenticate calm simple "token" promoted).0 ≡ false)
    × (is_ok (refresh calm simple "token" promoted).0 ≡ false)
unfolding update_role Rows.get_by_id Rows.update_guarded Rows.update_account
    Rows.increment_token_version Rows.increment_version sql or_raise pure raise ◌>>=◌
update_role-revokes_example =
    update_role-revokes calm simple 40 41 0 "admin" "token" start promoted
      (record { hmac = true; claims = user_claims }) refl refl refl refl refl (omega arith)

abbrev user_requests : List UserRequest
user_requests =
    UserRequest.delete 41 40
    ∷ UserRequest.update_role 41 40 "user"
    ∷ UserRequest.register "a@example.com" "pw" "A" "B"
    ∷ []

start-HasAdmin : HasAdmin start.db
start-HasAdmin = record {
  distinct = (refl, (refl, tt));
  drawn = (omega arith, (omega arith, tt));
  admin = omega arith;
}

serve_users-HasAdmin_example : HasAdmin (serve_users fourth_fails simple user_requests start).db
serve_users-HasAdmin_example =
    serve_users-HasAdmin fourth_fails simple user_requests start start-HasAdmin
