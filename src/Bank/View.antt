-- ===== src/Bank/View.antt =====
-- What a tenant sees of the database, and what the writes of one tenant leave alone.
use hwala.Base.{ℕ, ◌≡◌, Option, none, some, List, ◌==◌, filter, All}
use hwala.Base.Keys.{HasKeys}
use hwala.Base.Table.{Table, lookup}
use hwala.Db.{Db, Account, LedgerEntry, WebhookOutbox}

abbrev pub tenant_of_row : Option Account → Option ℕ
tenant_of_row none = none
tenant_of_row (some a) = some a.tenant_id

-- The tenant that an account belongs to.
unfoldable pub owner : ℕ → Db → Option ℕ
owner id db = tenant_of_row (lookup id db.accounts)

-- The accounts, the ledger entries and the outbox entries of a tenant, in table order.
pub record TenantView : Type 0 where
  pub accounts : Table Account
  pub entries : List LedgerEntry
  pub events : Table WebhookOutbox

abbrev pub view : ℕ → Db → TenantView
view tenant_id db = record {
  accounts = filter (λ (row : ℕ × Account). row.1.tenant_id == tenant_id) db.accounts;
  entries = filter (λ (e : LedgerEntry). e.tenant_id == tenant_id) db.ledger;
  events = filter (λ (row : ℕ × WebhookOutbox). row.1.tenant_id == tenant_id) db.outbox;
}

-- Every ledger entry names an account of its own tenant.
pub record IsSound (db : Db) : Type 0 where
  pub keys : HasKeys db.accounts
  pub owned : All (λ (e : LedgerEntry). owner e.account_id db ≡ some e.tenant_id) db.ledger
