-- ===== src/ApiKeys.antt =====
-- `ApiKeysService` of src/api-keys/api-keys.service.ts. The text of a UUID and its parse, and bcrypt, are
-- parameters; a text that is no UUID makes the query throw.
pub mod Laws
use Prim.Native.Char.{Char, code}
use Prim.Native.String
use hwala.Base.{
  ℕ, String, Bool, true, false, ◌&&◌, Option, none, some, List, [], ◌∷◌, ◌==◌, filter,
  if◌then◌else◌,
}
use hwala.Base.Result.{Result, ok, err, not_found, fault}
use hwala.Base.Table.{Table, lookup, insert, erase}
use hwala.Db.{Db, Tenant, ApiKey}
use hwala.Audit.{log}

abbrev pub push : Char → List String → List String
push c [] = (String.◌∷◌ c String.[]) ∷ []
push c (s ∷ parts) = String.◌∷◌ c s ∷ parts

-- `rawKey.split('_')`
unfoldable pub split : String → List String
split String.[] = String.[] ∷ []
split (String.◌∷◌ c s) =
    let parts = split s in if code c == b'_' then String.[] ∷ parts else push c parts

-- `${prefix}_${id}_${secret}`
abbrev pub joined : String → String → String → String
joined prefix id secret =
    String.◌++◌ prefix (String.◌∷◌ "_" (String.◌++◌ id (String.◌∷◌ "_" secret)))

-- What the code draws from outside: the keys and the secret, the salt, whether the audit service is there.
pub record KeyEnv : Type 0 where
  pub new_id : ℕ
  pub secret : String
  pub salt : ℕ
  pub has_audit : Bool
  pub audit_id : ℕ
  pub now : ℕ

pub record CreatedKey : Type 0 where
  pub api_key : String
  pub id : ℕ
  pub name : String
  pub scopes : List String

-- `auditService.log`, if the service is there.
abbrev pub logged : KeyEnv → ℕ → String → ℕ → Db → Db
logged env tenant_id action target_id db =
    if env.has_audit
    then (log env.audit_id env.now
        (record {
          tenant_id = tenant_id;
          user_id = none;
          action = action;
          target_id = some target_id;
        })
        db).1
    else db

module _ (uuid_text : ℕ → String) (uuid_of : String → Option ℕ)
    (hash : (salt : ℕ) (raw_key : String) → String)
    (compare : (raw_key key_hash : String) → Bool) where
  abbrev pub raw_key : KeyEnv → String
  raw_key env = joined "hwl" (uuid_text env.new_id) env.secret

  abbrev pub key_row : KeyEnv → ℕ → String → List String → ApiKey
  key_row env tenant_id name scopes = record {
    tenant_id = tenant_id;
    name = name;
    key_hash = hash env.salt (raw_key env);
    scopes = scopes;
  }

  abbrev pub insert_key : KeyEnv → ApiKey → Option ApiKey → Db → Result CreatedKey × Db
  insert_key env k (some _) db = (err (fault "Unique constraint failed"), db)
  insert_key env k none db = (
    ok (record { api_key = raw_key env; id = env.new_id; name = k.name; scopes = k.scopes }),
    logged env k.tenant_id "API_KEY_CREATED" env.new_id
        (record db { api_keys = insert env.new_id k db.api_keys }),
  )

  abbrev pub key_for_tenant : KeyEnv → ApiKey → Option Tenant → Db → Result CreatedKey × Db
  key_for_tenant env k none db = (err (fault "Foreign key constraint failed"), db)
  key_for_tenant env k (some _) db = insert_key env k (lookup env.new_id db.api_keys) db

  -- `createApiKey`
  unfoldable pub create_api_key : KeyEnv → ℕ → String → List String → Db → Result CreatedKey × Db
  create_api_key env tenant_id name scopes db =
      key_for_tenant env (key_row env tenant_id name scopes) (lookup tenant_id db.tenants) db

  abbrev pub matched : String → ℕ → Option ApiKey → Option (ℕ × ApiKey)
  matched text id none = none
  matched text id (some k) = if compare text k.key_hash then some (id, k) else none

  abbrev pub by_uuid : String → Option ℕ → Db → Result (Option (ℕ × ApiKey))
  by_uuid text none db = err (fault "Error creating UUID")
  by_uuid text (some id) db = ok (matched text id (lookup id db.api_keys))

  -- The first three parts; what comes after them is left out.
  abbrev pub from_parts : List String → Db → Result (Option (ℕ × ApiKey))
  from_parts (prefix ∷ id ∷ secret ∷ _) db = by_uuid (joined prefix id secret) (uuid_of id) db
  from_parts _ db = ok none

  -- `validateApiKey`
  unfoldable pub validate_api_key : String → Db → Result (Option (ℕ × ApiKey))
  validate_api_key text db = from_parts (split text) db

abbrev pub visible : Table ApiKey → Table (String × List String)
visible [] = []
visible ((id, k) ∷ rows) = (id, (k.name, k.scopes)) ∷ visible rows

-- `listApiKeys`; the rows without their hashes.
unfoldable pub list_api_keys : ℕ → Db → Table (String × List String)
list_api_keys tenant_id db =
    visible (filter (λ (row : ℕ × ApiKey). row.1.tenant_id == tenant_id) db.api_keys)

abbrev pub key_of_tenant : ℕ → Option ApiKey → Option ApiKey
key_of_tenant tenant_id none = none
key_of_tenant tenant_id (some k) = if k.tenant_id == tenant_id then some k else none

abbrev pub revoke_row : KeyEnv → ℕ → ℕ → Option ApiKey → Db → Result ℕ × Db
revoke_row env tenant_id id none db = (err (not_found "API Key not found"), db)
revoke_row env tenant_id id (some k) db = (
  ok id,
  logged env tenant_id "API_KEY_REVOKED" id (record db { api_keys = erase id db.api_keys }),
)

-- `revokeApiKey`
unfoldable pub revoke_api_key : KeyEnv → ℕ → ℕ → Db → Result ℕ × Db
revoke_api_key env tenant_id id db =
    revoke_row env tenant_id id (key_of_tenant tenant_id (lookup id db.api_keys)) db
