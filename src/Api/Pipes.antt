-- ===== src/Api/Pipes.antt =====
-- How a route reads its parameters, and what it makes of the result of a service.
use hwala.Base.{ℕ, String, Bool, Option, none, some, List, [], if◌then◌else◌}
use hwala.Base.Int.{ℤ, pos}
use hwala.Base.Result.{Result, ok, err, bad_request, not_found}
use hwala.Base.Table.{lookup}
use hwala.Db.{Db, RiskFlag, RiskStatus}
use hwala.Auth.Jwt.{JwtUser}
use hwala.Risk.{update_risk_flag_status, of_tenant}
use hwala.Webhook.Dlq.{DlqState}
use hwala.Api.Routes.{Answer, failed, as_done, IntQuery, absent, no_number, whole, invalid}

-- A service that reads, and one that may write.
abbrev pub read : {A : Type 0} → (A → Answer) → Result A → DlqState → Answer × DlqState
read f (ok a) st = (f a, st)
read f (err e) st = (failed e, st)

abbrev pub write : {A : Type 0} → (A → Answer) → Result A × Db → DlqState → Answer × DlqState
write f (ok a, db) st = (f a, record st { db = db })
write f (err e, db) st = (failed e, record st { db = db })

abbrev pub write_letter : Result ℕ × DlqState → Answer × DlqState
write_letter (ok id, st) = (as_done id, st)
write_letter (err e, st) = (failed e, st)

-- The body of a request passes the pipe, or the request is refused.
abbrev pub checked_body : Bool → Answer × DlqState → DlqState → Answer × DlqState
checked_body b next st = if b then next else (failed invalid, st)

-- `DefaultValuePipe`, `ParseIntPipe`
abbrev pub parse_int : ℕ → IntQuery → Result ℕ
parse_int fallback absent = ok fallback
parse_int fallback no_number = err (bad_request "Validation failed (numeric string is expected)")
parse_int fallback (whole n) = ok n

abbrev pub page_query : (ℕ → ℕ → Answer) → Result ℕ → Result ℕ → DlqState → Answer × DlqState
page_query f (ok limit) (ok offset) st = (f limit offset, st)
page_query f (err e) offset st = (failed e, st)
page_query f (ok limit) (err e) st = (failed e, st)

-- `@CurrentTenant()`
abbrev pub current_tenant : JwtUser → ℕ
current_tenant u = u.tenant_id

-- `dto.initialBalance`, which is 0 if it is left out; `dto.scopes`, which are none.
abbrev pub balance_or_zero : Option ℤ → ℤ
balance_or_zero none = pos 0
balance_or_zero (some n) = n

abbrev pub scopes_or_none : Option (List String) → List String
scopes_or_none none = []
scopes_or_none (some scopes) = scopes

abbrev pub flag_found : Option RiskFlag → Result RiskFlag
flag_found none = err (not_found "Risk flag not found")
flag_found (some f) = ok f

-- The call of `updateRiskFlagStatus`; a status that is left out is not written.
abbrev pub update_flag : (tenant_id id : ℕ) → Option RiskStatus → Db → Result RiskFlag × Db
update_flag tenant_id id (some status) db = update_risk_flag_status tenant_id id status db
update_flag tenant_id id none db = (flag_found (of_tenant tenant_id (lookup id db.risk_flags)), db)
