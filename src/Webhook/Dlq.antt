-- ===== src/Webhook/Dlq.antt =====
-- src/webhook/webhook-dlq.controller.ts.
use hwala.Base.{
  ℕ, ◌+◌, ◌-◌, ◌*◌, ◌/◌, Bool, true, false, Option, none, some, List, [], ◌∷◌, ◌++◌, ltb, ◌==◌,
  filter, take, drop, length, order_desc, if◌then◌else◌,
}
use hwala.Base.Result.{Result, ok, err, bad_request, not_found, fault}
use hwala.Base.Table.{Table, lookup, erase}
use hwala.Db.{Db, WebhookFailure}
use hwala.Webhook.Outbox.{Job, job_of}

pub record DlqState : Type 0 where
  pub db : Db
  pub queue : List Job

-- `Number(text) || fallback`: a text that is no number, or 0, is `none`.
abbrev pub or_number : Option ℕ → ℕ → ℕ
or_number none fallback = fallback
or_number (some n) fallback = if n == 0 then fallback else n

abbrev pub max_of : ℕ → ℕ → ℕ
max_of a b = if ltb a b then b else a

abbrev pub min_of : ℕ → ℕ → ℕ
min_of a b = if ltb b a then b else a

unfoldable pub page_of : Option ℕ → ℕ
page_of page = max_of 1 (or_number page 1)

unfoldable pub limit_of : Option ℕ → ℕ
limit_of limit = min_of 100 (max_of 1 (or_number limit 20))

-- `tenantId ? { tenantId } : {}`
abbrev pub in_scope : Option ℕ → WebhookFailure → Bool
in_scope none f = true
in_scope (some tenant_id) f = f.tenant_id == tenant_id

pub record Page : Type 0 where
  pub rows : Table WebhookFailure
  pub total : ℕ
  pub page : ℕ
  pub limit : ℕ
  pub total_pages : ℕ

-- `getFailedWebhooks`; page and limit are whole numbers, and a negative one is left out.
unfoldable pub get_failed_webhooks : Option ℕ → Option ℕ → Option ℕ → Db → Page
unfolding page_of limit_of
get_failed_webhooks tenant_id page_str limit_str db =
    let page = page_of page_str in
    let limit = limit_of limit_str in
    let rows = filter (λ (row : ℕ × WebhookFailure). in_scope tenant_id row.1) db.failures in
    let ordered = order_desc (λ (row : ℕ × WebhookFailure). row.1.failed_at) rows in
    record {
      rows = take limit (drop ((page - 1) * limit) ordered);
      total = length rows;
      page = page;
      limit = limit;
      total_pages = (length rows + (limit - 1)) / limit;
    }

-- The calls of a retry that may throw.
pub record RetryOutcome : Type 0 where
  pub add_ok : Bool
  pub delete_ok : Bool

abbrev pub delete_letter : ℕ → Db → Db
delete_letter id db = record db { failures = erase id db.failures }

abbrev pub after_add : RetryOutcome → ℕ → DlqState → Result ℕ × DlqState
after_add o id st =
    if o.delete_ok
    then (ok id, record st { db = delete_letter id st.db })
    else (err (bad_request "Failed to re-enqueue webhook"), st)

abbrev pub retry_row : RetryOutcome → ℕ → Option WebhookFailure → DlqState → Result ℕ × DlqState
retry_row o id none st = (err (not_found "Failed webhook entry not found"), st)
retry_row o id (some f) st =
    if o.add_ok
    then after_add o id (record st { queue = st.queue ++ job_of f.event_type f.payload ∷ [] })
    else (err (bad_request "Failed to re-enqueue webhook"), st)

-- `retryFailedWebhook`
unfoldable pub retry_failed_webhook : RetryOutcome → ℕ → DlqState → Result ℕ × DlqState
retry_failed_webhook o id st = retry_row o id (lookup id st.db.failures) st

abbrev pub dismiss_row : Bool → ℕ → Option WebhookFailure → DlqState → Result ℕ × DlqState
dismiss_row delete_ok id none st = (err (not_found "Failed webhook entry not found"), st)
dismiss_row true id (some f) st = (ok id, record st { db = delete_letter id st.db })
dismiss_row false id (some f) st = (err (fault "delete failed"), st)

-- `dismissFailedWebhook`
unfoldable pub dismiss_failed_webhook : Bool → ℕ → DlqState → Result ℕ × DlqState
dismiss_failed_webhook delete_ok id st = dismiss_row delete_ok id (lookup id st.db.failures) st
