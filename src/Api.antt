-- ===== src/Api.antt =====
-- The routes of all controllers but that of transfers (Bank/Http): a request on its way through its guards (Guards,
-- Auth/Jwt), the pipes that read its parameters and check its body (Api/Dto), and the service it calls.
-- src/app.controller.ts, src/auth/auth.controller.ts, src/api-keys/api-keys.controller.ts, src/accounts/accounts.controller.ts,
-- src/audit/audit.controller.ts, src/risk/risk.controller.ts and src/webhook/webhook-dlq.controller.ts.
mod Dto
mod Routes
mod Pipes
unfoldable pub use Dto.*
unfoldable pub use Routes.*
unfoldable pub use Pipes.*
pub mod Kept
pub mod Takeover
pub mod Letters
pub mod Rows
pub mod Confidential
pub mod Flags
pub mod Tenants
use hwala.Base.{ℕ, String, Bool, true, false, Option, none, some, List, [], ◌∷◌, if◌then◌else◌}
use hwala.Base.Int.{ℤ, pos}
use hwala.Base.Result.{Result, Error, ok, err, bad_request, not_found}
use hwala.Base.Table.{lookup}
use hwala.Db.{Db, Account, LedgerEntry, AuditLog, RiskFlag, RiskStatus}
use hwala.Auth.{Profile, register, login, get_profile}
use hwala.Auth.Jwt.{JwtPayload, JwtUser, jwt_guard}
use hwala.ApiKeys.{KeyEnv, CreatedKey, create_api_key, list_api_keys, revoke_api_key}
use hwala.Guards.{Identity, api_key_guard, scopes_guard}
use hwala.Accounts.{
  Health, create_account, list_accounts, get_account_ledger, reconcile_tenant_balance,
}
use hwala.Audit.{AuditLogs, get_audit_logs, get_audit_log_by_id}
use hwala.Risk.{update_risk_flag_status, of_tenant}
use hwala.Risk.Queries.{RiskFlags, get_risk_flags}
use hwala.Webhook.Dlq.{
  DlqState, Page, RetryOutcome, get_failed_webhooks, retry_failed_webhook, dismiss_failed_webhook,
}

module _ (o : Outside) where
  -- src/auth/auth.controller.ts
  abbrev pub get_profile_route : JwtUser → DlqState → Answer × DlqState
  get_profile_route u st = read as_profile (get_profile u.user_id st.db) st

  abbrev pub register_route :
      ApiEnv → (sent : List String) → RegisterUserDto → DlqState → Answer × DlqState
  register_route env sent dto st =
      checked_body (valid_register o.is_email o.whitelisted sent dto)
        (write as_profile
          (register o.hash env.user_id env.salt (some dto.tenant_id) dto.email dto.password dto.role
            st.db)
          st)
        st

  abbrev pub login_route : (sent : List String) → LoginDto → DlqState → Answer × DlqState
  login_route sent dto st =
      checked_body (valid_login o.is_email o.whitelisted sent dto)
        (read (λ found. as_session found.0 found.1)
          (login o.compare o.sign dto.email dto.password st.db) st)
        st

  -- src/api-keys/api-keys.controller.ts
  abbrev pub create_api_key_route :
      ApiEnv → JwtUser → (sent : List String) → CreateApiKeyDto → DlqState → Answer × DlqState
  create_api_key_route env u sent dto st =
      checked_body (valid_api_key o.is_email o.whitelisted sent dto)
        (write as_key
          (create_api_key o.uuid_text o.uuid_of o.hash o.compare env.key (current_tenant u) dto.name
            (scopes_or_none dto.scopes) st.db)
          st)
        st

  abbrev pub list_api_keys_route : JwtUser → DlqState → Answer × DlqState
  list_api_keys_route u st = (as_keys (list_api_keys (current_tenant u) st.db), st)

  abbrev pub revoke_api_key_route : ApiEnv → JwtUser → ℕ → DlqState → Answer × DlqState
  revoke_api_key_route env u id st =
      write as_done (revoke_api_key env.key (current_tenant u) id st.db) st

  -- src/audit/audit.controller.ts
  abbrev pub get_audit_logs_route :
      JwtUser
      → (user_id : Option ℕ) (action : Option String) (limit offset : IntQuery) → DlqState
      → Answer × DlqState
  get_audit_logs_route u user_id action limit offset st =
      page_query
        (λ n m. as_logs (
          get_audit_logs (current_tenant u)
            (record { user_id = user_id; action = action; limit = some n; offset = some m }) st.db))
        (parse_int 50 limit) (parse_int 0 offset) st

  abbrev pub get_audit_log_route : JwtUser → ℕ → DlqState → Answer × DlqState
  get_audit_log_route u id st = read as_log (get_audit_log_by_id (current_tenant u) id st.db) st

  -- src/risk/risk.controller.ts
  abbrev pub get_risk_flags_route :
      JwtUser
      → (account_id : Option ℕ) (status : Option RiskStatus) (limit offset : IntQuery) → DlqState
      → Answer × DlqState
  get_risk_flags_route u account_id status limit offset st =
      page_query
        (λ n m. as_flags (
          get_risk_flags (current_tenant u)
            (record { account_id = account_id; status = status; limit = some n; offset = some m })
            st.db))
        (parse_int 50 limit) (parse_int 0 offset) st

  abbrev pub update_status_route :
      JwtUser → ℕ → (sent : List String) → UpdateRiskFlagStatusDto → DlqState → Answer × DlqState
  update_status_route u id sent dto st =
      checked_body (valid_status o.is_email o.whitelisted sent dto)
        (write as_flag (update_flag (current_tenant u) id dto.status st.db) st) st

  -- src/accounts/accounts.controller.ts, for the tenant of the API key.
  abbrev pub create_account_route :
      ApiEnv → ℕ → (sent : List String) → CreateAccountDto → DlqState → Answer × DlqState
  create_account_route env t sent dto st =
      checked_body (valid_account o.is_email o.whitelisted sent dto)
        (write as_account
          (create_account env.account_id (some t) (some dto.user_id) dto.type
            (balance_or_zero dto.initial_balance) st.db)
          st)
        st

  abbrev pub list_accounts_route : ℕ → DlqState → Answer × DlqState
  list_accounts_route t st = (as_accounts (list_accounts t st.db), st)

  abbrev pub reconcile_route : ℕ → DlqState → Answer × DlqState
  reconcile_route t st = (as_health (reconcile_tenant_balance t st.db), st)

  abbrev pub account_ledger_route : ℕ → ℕ → DlqState → Answer × DlqState
  account_ledger_route t id st = read as_ledger (get_account_ledger t id st.db) st

  -- The routes behind `JwtAuthGuard`, for the user of the token.
  unfoldable pub for_user : ApiEnv → JwtUser → Route → DlqState → Answer × DlqState
  for_user env u get_me st = get_profile_route u st
  for_user env u (post_key sent dto) st = create_api_key_route env u sent dto st
  for_user env u list_keys st = list_api_keys_route u st
  for_user env u (delete_key id) st = revoke_api_key_route env u id st
  for_user env u (get_logs user_id action limit offset) st =
      get_audit_logs_route u user_id action limit offset st
  for_user env u (get_log id) st = get_audit_log_route u id st
  for_user env u (get_flags account_id status limit offset) st =
      get_risk_flags_route u account_id status limit offset st
  for_user env u (patch_flag id sent dto) st = update_status_route u id sent dto st
  for_user env u _ st = (failed (not_found "Not Found"), st)

  -- The routes behind `ApiKeyGuard` and `ScopesGuard`, for the tenant of the key.
  unfoldable pub for_tenant : ApiEnv → ℕ → Route → DlqState → Answer × DlqState
  for_tenant env t (post_account sent dto) st = create_account_route env t sent dto st
  for_tenant env t get_accounts st = list_accounts_route t st
  for_tenant env t get_reconcile st = reconcile_route t st
  for_tenant env t (get_ledger id) st = account_ledger_route t id st
  for_tenant env t _ st = (failed (not_found "Not Found"), st)

  -- The routes without a guard.
  unfoldable pub for_anyone : ApiEnv → Route → DlqState → Answer × DlqState
  for_anyone env get_hello st = (as_text "Hello World!", st)
  for_anyone env (post_register sent dto) st = register_route env sent dto st
  for_anyone env (post_login sent dto) st = login_route sent dto st
  for_anyone env (get_failures tenant_id page limit) st =
      (as_failures (get_failed_webhooks tenant_id page limit st.db), st)
  for_anyone env (post_retry id) st = write_letter (retry_failed_webhook env.retry id st)
  for_anyone env (delete_failure id) st = write_letter (dismiss_failed_webhook env.delete_ok id st)
  for_anyone env _ st = (failed (not_found "Not Found"), st)

  abbrev pub behind_token : ApiEnv → Result JwtUser → Route → DlqState → Answer × DlqState
  behind_token env (ok u) r st = for_user env u r st
  behind_token env (err e) r st = (failed e, st)

  -- `scope` is what the route asks for.
  abbrev pub with_scope :
      ApiEnv → Identity → Result (Unit {0}) → Route → DlqState → Answer × DlqState
  with_scope env i (ok _) r st = for_tenant env i.tenant_id r st
  with_scope env i (err e) r st = (failed e, st)

  abbrev pub behind_key : ApiEnv → String → Result Identity → Route → DlqState → Answer × DlqState
  behind_key env scope (ok i) r st =
      with_scope env i (scopes_guard (some (scope ∷ [])) (some i)) r st
  behind_key env scope (err e) r st = (failed e, st)

  abbrev pub user_of : Credentials → Result JwtUser
  user_of c = jwt_guard o.verify c.token

  abbrev pub identity : Credentials → Db → Result Identity
  identity c db = api_key_guard o.uuid_text o.uuid_of o.hash o.compare c.api_key db

  unfoldable pub answer_guarded :
      ApiEnv → Credentials → Guard → Route → DlqState → Answer × DlqState
  answer_guarded env c token_guard r st = behind_token env (user_of c) r st
  answer_guarded env c (key_guard scope) r st = behind_key env scope (identity c st.db) r st
  answer_guarded env c no_guard r st = for_anyone env r st

  -- A request.
  unfoldable pub respond : ApiEnv → Credentials → Route → DlqState → Answer × DlqState
  respond env c r st = answer_guarded env c (guard_of r) r st
