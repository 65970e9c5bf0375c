-- ===== src/Api/Routes.antt =====
-- The requests to the routes of all controllers but that of transfers, and their answers.
use hwala.Base.{ℕ, String, Bool, Option, List}
use hwala.Base.Result.{Error, bad_request}
use hwala.Base.Table.{Table}
use hwala.Db.{Account, LedgerEntry, AuditLog, RiskFlag, RiskStatus}
use hwala.Auth.{Profile}
use hwala.Auth.Jwt.{JwtPayload}
use hwala.ApiKeys.{KeyEnv, CreatedKey}
use hwala.Accounts.{Health}
use hwala.Audit.{AuditLogs}
use hwala.Risk.Queries.{RiskFlags}
use hwala.Webhook.Dlq.{Page, RetryOutcome}
use hwala.Api.Dto.{
  RegisterUserDto, LoginDto, CreateApiKeyDto, CreateAccountDto, UpdateRiskFlagStatusDto,
}

-- What the routes take from outside: the texts of UUIDs, bcrypt, the signature of tokens and what passport reads from a
-- token, and the validation library (Api/Dto).
pub record Outside : Type 0 where
  pub uuid_text : ℕ → String
  pub uuid_of : String → Option ℕ
  pub hash : (salt : ℕ) (text : String) → String
  pub compare : (text text_hash : String) → Bool
  pub sign : Profile → String
  pub verify : String → Option JwtPayload
  pub is_email : String → Bool
  pub whitelisted : (decorated sent : List String) → Bool

-- The headers `x-api-key` and `Authorization`.
pub record Credentials : Type 0 where
  pub api_key : Option String
  pub token : Option String

-- What one request draws: generated keys and salts, and how its calls of the queue and the database end.
pub record ApiEnv : Type 0 where
  pub user_id : ℕ
  pub salt : ℕ
  pub account_id : ℕ
  pub key : KeyEnv
  pub retry : RetryOutcome
  pub delete_ok : Bool

-- A query parameter behind `ParseIntPipe`; numbers are not negative.
pub data IntQuery : Type 0 where
  absent no_number : IntQuery
  whole : ℕ → IntQuery

pub data Route : Type 0 where
  get_hello get_me list_keys get_accounts get_reconcile : Route
  post_register : (sent : List String) → RegisterUserDto → Route
  post_login : (sent : List String) → LoginDto → Route
  post_key : (sent : List String) → CreateApiKeyDto → Route
  delete_key : ℕ → Route
  post_account : (sent : List String) → CreateAccountDto → Route
  get_ledger : ℕ → Route
  get_logs : (user_id : Option ℕ) (action : Option String) (limit offset : IntQuery) → Route
  get_log : ℕ → Route
  get_flags : (account_id : Option ℕ) (status : Option RiskStatus) (limit offset : IntQuery) → Route
  patch_flag : ℕ → (sent : List String) → UpdateRiskFlagStatusDto → Route
  get_failures : (tenant_id page limit : Option ℕ) → Route
  post_retry delete_failure : ℕ → Route

pub data Answer : Type 0 where
  failed : Error → Answer
  as_text : String → Answer
  as_profile : Profile → Answer
  as_session : (token : String) → Profile → Answer
  as_key : CreatedKey → Answer
  as_keys : Table (String × List String) → Answer
  as_account : Account → Answer
  as_accounts : Table Account → Answer
  as_health : Health → Answer
  as_ledger : Account × List LedgerEntry → Answer
  as_logs : AuditLogs → Answer
  as_log : AuditLog → Answer
  as_flags : RiskFlags → Answer
  as_flag : RiskFlag → Answer
  as_failures : Page → Answer
  as_done : ℕ → Answer

abbrev pub invalid : Error
invalid = bad_request "Bad Request Exception"

-- What a route asks for: nothing, a token, or an API key with a scope.
pub data Guard : Type 0 where
  no_guard token_guard : Guard
  key_guard : (scope : String) → Guard

-- The guards of each route.
unfoldable pub guard_of : Route → Guard
guard_of get_me = token_guard
guard_of (post_key _ _) = token_guard
guard_of list_keys = token_guard
guard_of (delete_key _) = token_guard
guard_of (get_logs _ _ _ _) = token_guard
guard_of (get_log _) = token_guard
guard_of (get_flags _ _ _ _) = token_guard
guard_of (patch_flag _ _ _) = token_guard
guard_of (post_account _ _) = key_guard "write:accounts"
guard_of get_accounts = key_guard "read:accounts"
guard_of get_reconcile = key_guard "read:accounts"
guard_of (get_ledger _) = key_guard "read:accounts"
guard_of _ = no_guard
