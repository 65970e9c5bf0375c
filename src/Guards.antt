-- ===== src/Guards.antt =====
-- The guards of src/auth: api-key.guard.ts, roles.guard.ts and scopes.guard.ts. The metadata of a route and the
-- user of a request are arguments.
pub mod Laws
use Prim.Native.String
use text.Mathlib.Text
use hwala.Base.{
  ℕ, String, Bool, true, false, ◌&&◌, ◌||◌, Option, none, some, List, [], ◌∷◌, every, if◌then◌else◌,
}
use hwala.Base.Result.{Result, ok, err, unauthorized, forbidden}
use hwala.Db.{Db, ApiKey, Role, api_user}
use hwala.ApiKeys.{validate_api_key}

-- `request.user`
pub record Identity : Type 0 where
  pub tenant_id : ℕ
  pub role : Option Role
  pub api_key_id : Option ℕ
  pub scopes : Option (List String)

abbrev pub same_role : Role → Role → Bool
same_role Role.admin Role.admin = true
same_role Role.support Role.support = true
same_role Role.api_user Role.api_user = true
same_role _ _ = false

abbrev pub includes_role : List Role → Role → Bool
includes_role [] r = false
includes_role (x ∷ roles) r = same_role x r || includes_role roles r

abbrev pub includes_scope : List String → String → Bool
includes_scope [] s = false
includes_scope (x ∷ scopes) s = Text.◌==◌ x s || includes_scope scopes s

abbrev pub role_of : Option Identity → Option Role
role_of none = none
role_of (some user) = user.role

abbrev pub has_role : List Role → Option Role → Result (Unit {0})
has_role required none = err (forbidden "User role not found")
has_role required (some r) =
    if includes_role required r
    then ok tt
    else err (forbidden "User does not have the required role")

-- `RolesGuard.canActivate`
unfoldable pub roles_guard : Option (List Role) → Option Identity → Result (Unit {0})
roles_guard none user = ok tt
roles_guard (some required) user = has_role required (role_of user)

abbrev pub scopes_of : Option Identity → Option (List String)
scopes_of none = none
scopes_of (some user) = user.scopes

abbrev pub has_scopes : List String → Option (List String) → Result (Unit {0})
has_scopes required none = err (forbidden "No scopes attached to request context")
has_scopes required (some scopes) =
    if every (includes_scope scopes) required
    then ok tt
    else err (forbidden "Insufficient API Key scopes")

-- `ScopesGuard.canActivate`
unfoldable pub scopes_guard : Option (List String) → Option Identity → Result (Unit {0})
scopes_guard none user = ok tt
scopes_guard (some []) user = ok tt
scopes_guard (some (s ∷ required)) user = has_scopes (s ∷ required) (scopes_of user)

abbrev pub identity_of : Result (Option (ℕ × ApiKey)) → Result Identity
identity_of (err e) = err e
identity_of (ok none) = err (unauthorized "Invalid API key")
identity_of (ok (some (id, k))) = ok (record {
  tenant_id = k.tenant_id;
  role = some api_user;
  api_key_id = some id;
  scopes = some k.scopes;
})

-- `ApiKeyGuard.canActivate`: the user that it attaches to the request.
unfoldable pub api_key_guard :
    (uuid_text : ℕ → String) (uuid_of : String → Option ℕ)
    (hash : (salt : ℕ) (raw_key : String) → String) (compare : (raw_key key_hash : String) → Bool)
    → Option String
    → Db
    → Result Identity
api_key_guard uuid_text uuid_of hash compare none db = err (unauthorized "API key is missing")
api_key_guard uuid_text uuid_of hash compare (some String.[]) db =
    err (unauthorized "API key is missing")
api_key_guard uuid_text uuid_of hash compare (some (String.◌∷◌ c s)) db =
    identity_of (validate_api_key uuid_text uuid_of hash compare (String.◌∷◌ c s) db)

-- The tenant that an accepted key acts for.
abbrev pub tenant_of_key : Result Identity → Option ℕ
tenant_of_key (ok i) = some i.tenant_id
tenant_of_key (err e) = none
