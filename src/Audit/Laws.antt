-- ===== src/Audit/Laws.antt =====
-- What the queries of the audit log (Audit) return.
use hwala.Base.{ℕ, arith, ◌*◌, ◌≤◌, ◌==◌, ◌≡◌, some, if◌then◌else◌}
use hwala.Base.Keys.{HasKeys}
use hwala.Base.Pages.{keep, pages, pages-all, IsDescending}
use hwala.Base.Result.{ok, err, not_found}
use hwala.Base.Table.{Table, lookup, lookup-insert}
use hwala.Db.{Db, AuditLog}
use hwala.Audit.{
  LogAuditParams, log, QueryAuditLogsOptions, get_audit_logs, get_audit_log_by_id, selected,
}

-- No two rows were made at the same time, so that the order by time leaves none open.
abbrev pub HasTimes : Table AuditLog → Type 0
HasTimes logs =
    (i j : ℕ) (v w : AuditLog)
    → lookup i logs ≡ some v
    → lookup j logs ≡ some w
    → v.created_at ≡ w.created_at
    → i ≡ j

-- Paging through the audit log, in which no key stands twice and no two entries have the same time, with pages enough for the reported total, gives
-- every entry of the tenant that matches the filters and no other, each once, newest first.
pub get_audit_logs-pages :
    (tenant_id n limit : ℕ) (options : QueryAuditLogsOptions) (db : Db)
    → HasKeys db.audit_logs
    → HasTimes db.audit_logs
    → (get_audit_logs tenant_id options db).total ≤ n * limit
    → let rows = pages n limit 0 (λ o.
      (get_audit_logs tenant_id
        (record options { limit = some limit; offset = some o })
        db).logs) in
      HasKeys rows
      × ((id : ℕ) → lookup id rows ≡ keep (selected tenant_id options) (lookup id db.audit_logs))
      × IsDescending (λ (row : ℕ × AuditLog). row.1.created_at) rows
unfolding get_audit_logs selected
get_audit_logs-pages tenant_id n limit options db h _ few =
    pages-all (λ (row : ℕ × AuditLog). row.1.created_at) (selected tenant_id options) n limit
      db.audit_logs h few

-- An entry that is logged is then found under its id by its own tenant and by no other, and what the
-- other ids give is unchanged.
log-get_audit_log_by_id :
    (id now : ℕ) (params : LogAuditParams) (tenant_id j : ℕ) (db : Db)
    → let (entry, db') = log id now params db in
      (get_audit_log_by_id tenant_id id db' ≡ (
        if params.tenant_id == tenant_id
        then ok entry
        else err (not_found "Audit log entry not found")))
      × (get_audit_log_by_id tenant_id j db' ≡ (
          if id == j
          then get_audit_log_by_id tenant_id id db'
          else get_audit_log_by_id tenant_id j db))
unfolding get_audit_log_by_id
log-get_audit_log_by_id id now params tenant_id j db = (
  ground (arith, lookup-insert id id (log id now params db).0 db.audit_logs),
  ground (arith, lookup-insert id j (log id now params db).0 db.audit_logs),
)
