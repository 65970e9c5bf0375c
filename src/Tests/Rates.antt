-- ===== src/Tests/Rates.antt =====
-- The audit log, the exchange rates and the metrics on small inputs.
use hwala.Base.{
  ℕ, arith, ◌*◌, ◌/◌, ◌≤◌, ◌==◌, ◌||◌, ◌≡◌, ◌↔◌, ◌⊎◌, refl, Bool, not, none, some, true, false, [],
  ◌∷◌,
}
use hwala.Base.Keys.{HasKeys}
use hwala.Base.Pages.{keep, pages, IsDescending}
use hwala.Base.Result.{Error, err}
use hwala.Base.Table.{lookup}
use hwala.Db.{Db, AuditLog}
use hwala.Audit.{QueryAuditLogsOptions, get_audit_logs, selected}
use hwala.Audit.Laws.{HasTimes, get_audit_logs-pages}
use hwala.Exchange.{
  Rates, Js, Source, Reply, Field, FxConfig, FxCall, FxCache, value_of, is_blank, get_latest_rates,
  fetch_live_rates, get_exchange_rate,
}
use hwala.Exchange.Laws.{get_latest_rates-cached, IsMissing, get_exchange_rate-err_iff}
use text.Mathlib.Text
use hwala.Tests.{bank}

abbrev log_entry : ℕ → ℕ → AuditLog
log_entry tenant_id created_at = record {
  tenant_id = tenant_id;
  user_id = none;
  action = "API_KEY_CREATED";
  target_id = some 3;
  created_at = created_at;
}

-- Two entries of tenant 1 and one of tenant 2.
abbrev log_db : Db
log_db = record bank {
  audit_logs = (90, log_entry 1 100) ∷ (91, log_entry 2 200) ∷ (92, log_entry 1 300) ∷ [];
}

abbrev all_logs : QueryAuditLogsOptions
all_logs = record { user_id = none; action = none; limit = none; offset = none }

log_db-HasKeys : HasKeys log_db.audit_logs
unfolding lookup
log_db-HasKeys = (refl, (refl, (refl, tt)))

log_db-HasTimes : HasTimes log_db.audit_logs
unfolding lookup
log_db-HasTimes i j v w h e same = ground arith

log_db-few : (get_audit_logs 1 all_logs log_db).total ≤ 2 * 1
unfolding get_audit_logs selected
log_db-few = ground arith

get_audit_logs-pages_example :
    let rows =
      pages 2 1 0 (λ o.
        (get_audit_logs 1 (record all_logs { limit = some 1; offset = some o }) log_db).logs) in
    HasKeys rows
    × ((id : ℕ) → lookup id rows ≡ keep (selected 1 all_logs) (lookup id log_db.audit_logs))
    × IsDescending (λ (row : ℕ × AuditLog). row.1.created_at) rows
get_audit_logs-pages_example =
    get_audit_logs-pages 1 2 1 all_logs log_db log_db-HasKeys log_db-HasTimes log_db-few

-- Whole numbers for doubles, and one text for the only table that is ever read.
abbrev live : Rates ℕ
live = ("USD", 100) ∷ ("EUR", 92) ∷ []

abbrev js : Js ℕ
js = record {
  decimal = λ m k. m;
  is_truthy = λ n. not (n == 0);
  is_nan = λ n. false;
  is_at_most_zero = λ n. n == 0;
  mul = λ a b. a * b;
  div = λ a b. a / b;
  fixed = λ n a. a;
  to_upper_case = λ s. s;
  trim = λ s. s;
  encode_uri_component = λ s. s;
  stringify = λ rates. "rates";
  parse = λ text. some live;
}

abbrev config : FxConfig
config = record { base_currency = none; cache_ttl = some 60; api_url = none; api_key = none }

abbrev call : ℕ → Bool → Reply ℕ → FxCall ℕ
call now up reply = record {
  read_at = now;
  written_at = now;
  has_client = true;
  get_ok = up;
  set_ok = up;
  fetch = λ url. reply;
}

abbrev reply : Reply ℕ
reply = Reply.body (Field.object live) Field.absent

abbrev cached : FxCache
cached = (get_latest_rates js config (call 10 true reply) "USD" []).1

fetched : get_latest_rates js config (call 10 true reply) "USD" [] ≡ ((live, Source.api), cached)
unfolding get_latest_rates fetch_live_rates value_of
fetched = refl

get_latest_rates-cached_example :
    get_latest_rates js config (call 69 true Reply.threw) "USD" cached
    ≡ ((live, Source.cache), cached)
get_latest_rates-cached_example =
    get_latest_rates-cached js config (call 10 true reply) (call 69 true Reply.threw) "USD" live []
      cached refl refl fetched refl refl refl refl (ground arith)

get_exchange_rate-err_iff_example :
    ((e : Error) × ((get_exchange_rate js config (call 10 true reply) "USD" "XXX" []).0 ≡ err e))
    ↔ ((is_blank "USD" || is_blank "XXX" ≡ true)
        ⊎ ((Text.◌==◌ "USD" "XXX" ≡ false)
            × (IsMissing js config "USD"
                  (get_latest_rates js config (call 10 true reply) "USD" []).0.0
                ⊎ IsMissing js config "XXX"
                    (get_latest_rates js config (call 10 true reply) "USD" []).0.0)))
get_exchange_rate-err_iff_example =
    get_exchange_rate-err_iff js config (call 10 true reply) "USD" "XXX" []
