-- ===== src/Auth.antt =====
-- `AuthService` of src/auth/auth.service.ts. bcrypt is two parameters, the hash of a password with the salt
-- that was drawn and the comparison of a password with a hash; so is the signature of a token's data.
pub mod Jwt
pub mod Laws
use text.Mathlib.Text
use hwala.Base.{ℕ, String, Bool, true, false, Option, none, some, List, [], ◌∷◌, if◌then◌else◌}
use hwala.Base.Result.{Result, ok, err, bad_request, not_found, conflict, unauthorized, fault}
use hwala.Base.Table.{Table, lookup, insert}
use hwala.Db.{Db, Tenant, User, Role, api_user}

-- What `register`, `login` and `getProfile` tell of a user, without the hash of the password.
pub record Profile : Type 0 where
  pub id : ℕ
  pub tenant_id : ℕ
  pub email : String
  pub role : Role

abbrev pub profile_of : ℕ → User → Profile
profile_of id u = record { id = id; tenant_id = u.tenant_id; email = u.email; role = u.role }

-- `user.findUnique({ where: { email } })`
unfoldable pub find_by_email : String → Table User → Option (ℕ × User)
find_by_email email [] = none
find_by_email email ((id, u) ∷ rows) =
    let rest = find_by_email email rows in if Text.◌==◌ u.email email then some (id, u) else rest

abbrev pub is_empty : String → Bool
is_empty s = Text.◌==◌ s ""

abbrev pub role_or : Option Role → Role
role_or none = api_user
role_or (some r) = r

module _ (hash : (salt : ℕ) (password : String) → String) where
  abbrev pub user_row : ℕ → ℕ → String → String → Option Role → User
  user_row salt tenant_id email password role = record {
    tenant_id = tenant_id;
    email = email;
    password_hash = hash salt password;
    role = role_or role;
  }

  -- `user.create` of a row whose generated key is `id`.
  abbrev pub user_create : ℕ → User → Option User → Db → Result Profile × Db
  user_create id u none db = (ok (profile_of id u), record db { users = insert id u db.users })
  user_create id u (some _) db = (err (fault "Unique constraint failed"), db)

  abbrev pub without_user : ℕ → User → Option (ℕ × User) → Db → Result Profile × Db
  without_user id u (some _) db = (err (conflict "Email is already registered"), db)
  without_user id u none db = user_create id u (lookup id db.users) db

  abbrev pub with_tenant : ℕ → User → Option Tenant → Db → Result Profile × Db
  with_tenant id u none db = (err (bad_request "Tenant not found"), db)
  with_tenant id u (some _) db = without_user id u (find_by_email u.email db.users) db

  -- `register`; `new_id` is the generated key, `salt` the salt.
  unfoldable pub register :
      (new_id salt : ℕ)
      → Option ℕ
      → (email password : String) → Option Role
      → Db
      → Result Profile × Db
  register new_id salt none email password role db =
      (err (bad_request "tenantId, email, and password are required"), db)
  register new_id salt (some tenant_id) email password role db =
      if is_empty email
      then (err (bad_request "tenantId, email, and password are required"), db)
      else if is_empty password
      then (err (bad_request "tenantId, email, and password are required"), db)
      else with_tenant new_id (user_row salt tenant_id email password role)
          (lookup tenant_id db.tenants) db

module _ (compare : (password password_hash : String) → Bool) (sign : Profile → String) where
  abbrev pub checked : String → Option (ℕ × User) → Result (String × Profile)
  checked password none = err (unauthorized "Invalid email or password")
  checked password (some (id, u)) =
      if compare password u.password_hash
      then ok (sign (profile_of id u), profile_of id u)
      else err (unauthorized "Invalid email or password")

  -- `login`: a token and the user.
  unfoldable pub login : (email password : String) → Db → Result (String × Profile)
  login email password db =
      if is_empty email
      then err (bad_request "Email and password are required")
      else if is_empty password
      then err (bad_request "Email and password are required")
      else checked password (find_by_email email db.users)

abbrev pub profile_found : ℕ → Option User → Result Profile
profile_found id none = err (not_found "User not found")
profile_found id (some u) = ok (profile_of id u)

-- `getProfile`
unfoldable pub get_profile : ℕ → Db → Result Profile
get_profile user_id db = profile_found user_id (lookup user_id db.users)
