-- ===== src/Auth/Jwt.antt =====
-- src/auth/jwt.strategy.ts and src/auth/jwt-auth.guard.ts. What passport reads from the bearer token of a request, if its
-- signature holds and it has not expired, is a parameter.
use hwala.Base.{ℕ, String, Option, none, some}
use hwala.Base.Result.{Result, Error, ok, err, unauthorized, fault}
use hwala.Db.{Role}
use hwala.Auth.{Profile}

-- `JwtPayload`
pub record JwtPayload : Type 0 where
  pub sub : ℕ
  pub email : String
  pub tenant_id : ℕ
  pub role : Role

-- What `login` signs.
abbrev pub payload_of : Profile → JwtPayload
payload_of p = record { sub = p.id; email = p.email; tenant_id = p.tenant_id; role = p.role }

-- `request.user` behind the guard.
pub record JwtUser : Type 0 where
  pub user_id : ℕ
  pub email : String
  pub tenant_id : ℕ
  pub role : Role

-- The constructor of the strategy: without a secret the application does not start.
unfoldable pub jwt_secret : Option String → Result String
jwt_secret none = err (fault "FATAL: JWT_SECRET environment variable is missing.")
jwt_secret (some String.[]) = err (fault "FATAL: JWT_SECRET environment variable is missing.")
jwt_secret (some (String.◌∷◌ c s)) = ok (String.◌∷◌ c s)

-- What tokens are signed with.
pub record JwtModuleOptions : Type 0 where
  pub secret : String
  pub expires_in : String

abbrev module_options : Result String → Result JwtModuleOptions
module_options (ok secret) = ok (record { secret = secret; expires_in = "60m" })
module_options (err e) = err e

-- The factory of src/auth/auth.module.ts, with the same check.
unfoldable pub jwt_module_options : Option String → Result JwtModuleOptions
jwt_module_options secret = module_options (jwt_secret secret)

-- `JwtStrategy.validate`
abbrev pub validate_payload : JwtPayload → JwtUser
validate_payload p = record {
  user_id = p.sub;
  email = p.email;
  tenant_id = p.tenant_id;
  role = p.role;
}

-- `JwtAuthGuard.handleRequest`
abbrev pub handle_request : Option Error → Option JwtUser → Result JwtUser
handle_request (some e) user = err e
handle_request none none = err (unauthorized "Unauthorized")
handle_request none (some user) = ok user

module _ (verify : String → Option JwtPayload) where
  abbrev pub read_token : Option JwtPayload → Option JwtUser
  read_token none = none
  read_token (some p) = some (validate_payload p)

  -- `JwtAuthGuard.canActivate`: a request without a token has no user.
  unfoldable pub jwt_guard : Option String → Result JwtUser
  jwt_guard none = handle_request none none
  jwt_guard (some token) = handle_request none (read_token (verify token))

-- The tenant that an accepted token acts for.
abbrev pub tenant_of_user : Result JwtUser → Option ℕ
tenant_of_user (ok u) = some u.tenant_id
tenant_of_user (err e) = none
