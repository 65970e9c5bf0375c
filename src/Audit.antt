-- ===== src/Audit.antt =====
-- src/audit/audit.service.ts: the log that the key service (ApiKeys) writes, and its queries. The JSON metadata of an
-- entry is left out; `limit` and `offset` are numbers that are not negative.
pub mod Laws
use Prim.Native.String
use text.Mathlib.Text
use hwala.Base.{
  ℕ, String, Bool, true, false, ◌&&◌, Option, none, some, ◌==◌, filter, length, if◌then◌else◌,
}
use hwala.Base.Pages.{page_rows, keep}
use hwala.Base.Result.{Result, ok, err, not_found}
use hwala.Base.Table.{Table, lookup, insert}
use hwala.Db.{Db, AuditLog}

pub record LogAuditParams : Type 0 where
  pub tenant_id : ℕ
  pub user_id : Option ℕ
  pub action : String
  pub target_id : Option ℕ

-- `log`: the key and the time are the database's.
abbrev pub log : (id now : ℕ) → LogAuditParams → Db → AuditLog × Db
log id now params db =
    let entry : AuditLog = record {
      tenant_id = params.tenant_id;
      user_id = params.user_id;
      action = params.action;
      target_id = params.target_id;
      created_at = now;
    } in
    (entry, record db { audit_logs = insert id entry db.audit_logs })

-- An option that is left out is `none`.
pub record QueryAuditLogsOptions : Type 0 where
  pub user_id : Option ℕ
  pub action : Option String
  pub limit : Option ℕ
  pub offset : Option ℕ

pub record AuditLogs : Type 0 where
  pub logs : Table AuditLog
  pub total : ℕ
  pub limit : ℕ
  pub offset : ℕ

abbrev pub or_default : Option ℕ → ℕ → ℕ
or_default none d = d
or_default (some n) d = n

abbrev pub user_matches : Option ℕ → Option ℕ → Bool
user_matches none _ = true
user_matches (some u) none = false
user_matches (some u) (some v) = u == v

-- The empty text is no filter.
abbrev pub action_matches : Option String → String → Bool
action_matches none a = true
action_matches (some String.[]) a = true
action_matches (some (String.◌∷◌ c s)) a = Text.◌==◌ (String.◌∷◌ c s) a

-- The `where` of a query.
unfoldable pub selected : ℕ → QueryAuditLogsOptions → AuditLog → Bool
selected tenant_id options l =
    l.tenant_id == tenant_id
    && (user_matches options.user_id l.user_id && action_matches options.action l.action)

-- `getAuditLogs`. Rows of equal time come in the order of the table here; the database leaves their order open.
unfoldable pub get_audit_logs : ℕ → QueryAuditLogsOptions → Db → AuditLogs
get_audit_logs tenant_id options db =
    let limit = or_default options.limit 50 in
    let offset = or_default options.offset 0 in
    let matching = λ (row : ℕ × AuditLog). selected tenant_id options row.1 in
    record {
      logs =
          page_rows (λ (row : ℕ × AuditLog). row.1.created_at) matching limit offset db.audit_logs;
      total = length (filter matching db.audit_logs);
      limit = limit;
      offset = offset;
    }

abbrev pub found_log : Option AuditLog → Result AuditLog
found_log none = err (not_found "Audit log entry not found")
found_log (some l) = ok l

-- `getAuditLogById`
unfoldable pub get_audit_log_by_id : ℕ → ℕ → Db → Result AuditLog
get_audit_log_by_id tenant_id id db =
    found_log (keep (λ l. l.tenant_id == tenant_id) (lookup id db.audit_logs))
