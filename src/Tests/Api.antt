-- ===== src/Tests/Api.antt =====
-- Requests to the other controllers of the small bank.
use Prim.Native.Char.{code}
use text.Mathlib.Text
use text.Mathlib.TextEquality.{eq_iff}
use hwala.Base.{
  ℕ, suc, zero, arith, ◌≡◌, ◌≢◌, ◌==◌, refl, ap, String, true, false, Option, none, some, List, [],
  ◌∷◌, every, All, if◌then◌else◌,
}
use hwala.Base.Keys.{HasKeys}
use hwala.Base.Result.{Error, ok}
use hwala.Base.Table.{lookup}
use hwala.Db.{
  Db, Role, WebhookFailure, Payload, admin, support, api_user, resolved, RiskFlag, RiskSeverity,
  open_flag,
}
use hwala.Auth.{Profile, find_by_email}
use hwala.Auth.Jwt.{JwtPayload, payload_of, jwt_guard}
use hwala.ApiKeys.{CreatedKey}
use hwala.ApiKeys.Laws.{NoMark}
use hwala.Guards.{includes_scope}
use hwala.Webhook.Dlq.{DlqState}
use hwala.Api.{
  Outside, Credentials, ApiEnv, Route, Guard, no_guard, guard_of, RegisterUserDto, LoginDto,
  CreateApiKeyDto, UpdateRiskFlagStatusDto, respond, identity, valid_register, valid_login,
  valid_api_key, as_session, as_key, failed,
}
use hwala.Api.Tenants.{caller, Leaves, respond-Leaves}
use hwala.Api.Flags.{patch_flag-refused}
use hwala.Api.Letters.{listed, purge, purge-listed}
use hwala.Api.Takeover.{IsFaithful, nobody, bearer, keyed, takeover}
use hwala.Tests.{bank}

-- Numbers in unary, with a mark behind.
abbrev write_number : ℕ → String → String
write_number zero rest = String.◌∷◌ "_" rest
write_number (suc n) rest = String.◌∷◌ "1" (write_number n rest)

abbrev next : Option (ℕ × String) → Option (ℕ × String)
next none = none
next (some (n, rest)) = some (suc n, rest)

abbrev read_number : String → Option (ℕ × String)
read_number String.[] = none
read_number (String.◌∷◌ c s) =
    let rest = read_number s in if code c == b'_' then some (0, s) else next rest

read-write_number : (n : ℕ) (rest : String) → read_number (write_number n rest) ≡ some (n, rest)
read-write_number zero rest = refl
read-write_number (suc n) rest = ap next (read-write_number n rest)

abbrev role_number : Role → ℕ
role_number admin = 0
role_number support = 1
role_number api_user = 2

abbrev role_from : ℕ → Role
role_from n = if n == 0 then admin else if n == 1 then support else api_user

-- A token is the text of its data.
abbrev sign : Profile → String
sign p = write_number p.id (write_number p.tenant_id (write_number (role_number p.role) p.email))

abbrev with_role : ℕ → ℕ → Option (ℕ × String) → Option JwtPayload
with_role id tenant_id none = none
with_role id tenant_id (some (role, email)) =
    some (record { sub = id; email = email; tenant_id = tenant_id; role = role_from role })

abbrev with_tenant_id : ℕ → Option (ℕ × String) → Option JwtPayload
with_tenant_id id none = none
with_tenant_id id (some (tenant_id, rest)) = with_role id tenant_id (read_number rest)

abbrev with_id : Option (ℕ × String) → Option JwtPayload
with_id none = none
with_id (some (id, rest)) = with_tenant_id id (read_number rest)

unfoldable verify : String → Option JwtPayload
verify token = with_id (read_number token)

role-number : (r : Role) → role_from (role_number r) ≡ r
role-number admin = refl
role-number support = refl
role-number api_user = refl

verify-sign : (p : Profile) → verify (sign p) ≡ some (payload_of p)
unfolding verify
verify-sign p =
    rw
      (read-write_number p.id
        (write_number p.tenant_id (write_number (role_number p.role) p.email)))
      (rw (read-write_number p.tenant_id (write_number (role_number p.role) p.email))
        (rw (read-write_number (role_number p.role) p.email) (rw (role-number p.role) refl)))

abbrev uuid_text : ℕ → String
uuid_text zero = ""
uuid_text (suc n) = String.◌∷◌ "1" (uuid_text n)

abbrev succ_of : Option ℕ → Option ℕ
succ_of none = none
succ_of (some n) = some (suc n)

abbrev uuid_of : String → Option ℕ
uuid_of String.[] = some 0
uuid_of (String.◌∷◌ c s) = succ_of (uuid_of s)

abbrev outside : Outside
outside = record {
  uuid_text = uuid_text;
  uuid_of = uuid_of;
  hash = λ salt text. text;
  compare = λ text stored. Text.◌==◌ text stored;
  sign = sign;
  verify = verify;
  is_email = λ text. true;
  whitelisted = λ decorated sent. every (includes_scope decorated) sent;
}

marks : (id : ℕ) → NoMark (uuid_text id)
marks zero = tt
marks (suc n) = (ground arith, marks n)

parses : (id : ℕ) → uuid_of (uuid_text id) ≡ some id
parses zero = refl
parses (suc n) = ap succ_of (parses n)

outside-IsFaithful : IsFaithful outside
outside-IsFaithful = record {
  unmarked = marks;
  read_back = parses;
  accepted = λ salt text. (eq_iff text text).1 refl;
  verified = verify-sign;
}

abbrev api_env : ApiEnv
api_env = record {
  user_id = 70;
  salt = 1;
  account_id = 15;
  key = record {
    new_id = 3;
    secret = "abc";
    salt = 1;
    has_audit = true;
    audit_id = 90;
    now = 1000;
  };
  retry = record { add_ok = true; delete_ok = true };
  delete_ok = true;
}

abbrev start : DlqState
start = record { db = bank; queue = [] }

abbrev account_dto : RegisterUserDto
account_dto = record {
  tenant_id = 1;
  email = "eve@else.example";
  password = "secret";
  role = some admin;
}

abbrev wish : CreateApiKeyDto
wish = record { name = "mine"; scopes = some ("write:transfers" ∷ []) }

abbrev login_dto : LoginDto
login_dto = record { email = "eve@else.example"; password = "secret" }

register_passes :
    valid_register outside.is_email outside.whitelisted ("email" ∷ []) account_dto ≡ true
unfolding valid_register
register_passes = refl

login_passes : valid_login outside.is_email outside.whitelisted ("email" ∷ []) login_dto ≡ true
unfolding valid_login
login_passes = refl

key_passes : valid_api_key outside.is_email outside.whitelisted ("name" ∷ []) wish ≡ true
unfolding valid_api_key
key_passes = refl

eve_unknown : find_by_email "eve@else.example" bank.users ≡ none
unfolding find_by_email
eve_unknown = refl

tenant_known : lookup 1 bank.tenants ≡ some hwala.Tests.tenant
unfolding lookup
tenant_known = refl

user_free : lookup 70 bank.users ≡ none
unfolding lookup
user_free = refl

key_free : lookup 3 bank.api_keys ≡ none
unfolding lookup
key_free = refl

audit_free : lookup 90 bank.audit_logs ≡ none
unfolding lookup
audit_free = refl

secret-NoMark : NoMark "abc"
secret-NoMark = ((ground arith), ((ground arith), ((ground arith), tt)))

abbrev after_register : DlqState
after_register =
    (respond outside api_env nobody (Route.post_register ("email" ∷ []) account_dto) start).1

takeover_example :
    (token : String) × (profile : Profile) × (key : CreatedKey) × (st2 : DlqState) × (respond
        outside api_env nobody
        (Route.post_login ("email" ∷ []) login_dto)
        after_register
      ≡ (as_session token profile, after_register))
    × (respond outside api_env (bearer token) (Route.post_key ("name" ∷ []) wish) after_register
        ≡ (as_key key, st2))
    × (identity outside (keyed key.api_key) st2.db
        ≡ ok (record {
          tenant_id = 1;
          role = some api_user;
          api_key_id = some key.id;
          scopes = some ("write:transfers" ∷ []);
        }))
takeover_example =
    takeover outside outside-IsFaithful api_env ("email" ∷ []) ("email" ∷ []) ("name" ∷ [])
      account_dto wish hwala.Tests.tenant start register_passes login_passes key_passes tenant_known
      eve_unknown user_free key_free secret-NoMark

-- A user of the first tenant.
abbrev ann : Profile
ann = record { id = 71; tenant_id = 1; email = "ann@shop.example"; role = support }

abbrev ann_token : Credentials
ann_token = bearer (sign ann)

ann_calls :
    (g : Route) (db : Db)
    → guard_of g ≡ Guard.token_guard
    → caller outside ann_token (guard_of g) db ≡ some 1
unfolding jwt_guard
ann_calls g db e = rw e (rw (verify-sign ann) refl)

new_key_guard : guard_of (Route.post_key ("name" ∷ []) wish) ≡ Guard.token_guard
unfolding guard_of
new_key_guard = refl

not_open : (g : Guard) → g ≡ Guard.token_guard → g ≢ no_guard
not_open g e f = ground arith

not_two : (o : Option ℕ) → o ≡ some 1 → (s : ℕ) → o ≡ some s → (s == 2) ≡ false
not_two o e s f = ground arith

respond-Leaves_example :
    Leaves 2 start (respond outside api_env ann_token (Route.post_key ("name" ∷ []) wish) start).1
respond-Leaves_example =
    respond-Leaves outside api_env 2 start audit_free ann_token (Route.post_key ("name" ∷ []) wish)
      (not_open _ new_key_guard) (not_two _ (ann_calls _ bank new_key_guard))

-- A flag of each tenant.
abbrev flag_of : ℕ → RiskFlag
flag_of tenant_id = record {
  tenant_id = tenant_id;
  account_id = 10;
  reason = "High-value transfer alert";
  severity = RiskSeverity.high;
  status = open_flag;
  created_at = 20;
}

abbrev with_flags : DlqState
with_flags = record start { db = record bank { risk_flags = (5, flag_of 1) ∷ (7, flag_of 2) ∷ [] } }

sent_All :
    (decorated sent : List String)
    → every (includes_scope decorated) sent ≡ true
    → All (λ p. includes_scope decorated p ≡ true) sent
sent_All decorated [] h = tt
sent_All decorated (p ∷ sent) h = (ground arith, sent_All decorated sent (ground arith))

abbrev close_flag : UpdateRiskFlagStatusDto
close_flag = record { status = some resolved }

patch_flag-refused_example :
    (e : Error) × (respond outside api_env ann_token
        (Route.patch_flag 5 ("status" ∷ []) close_flag)
        with_flags
      ≡ (failed e, with_flags))
patch_flag-refused_example =
    patch_flag-refused outside api_env sent_All ann_token 5 ("status" ∷ []) close_flag with_flags
      refl

abbrev letter : ℕ → WebhookFailure
letter tenant_id = record {
  tenant_id = tenant_id;
  event_type = "transfer.completed";
  payload = Payload.custom (some tenant_id) none none;
  error = "timeout";
  retries = 5;
  failed_at = 10;
}

abbrev with_letters : DlqState
with_letters = record start { db = record bank { failures = (4, letter 1) ∷ (6, letter 2) ∷ [] } }

letters-HasKeys : HasKeys with_letters.db.failures
unfolding lookup
letters-HasKeys = (refl, (refl, tt))

purge-listed_example :
    (purge outside api_env
      (listed
        (respond outside api_env nobody
          (Route.get_failures none (some 1) (some 100))
          with_letters).0)
      with_letters).db.failures
    ≡ []
purge-listed_example = purge-listed outside api_env with_letters refl letters-HasKeys (ground arith)
