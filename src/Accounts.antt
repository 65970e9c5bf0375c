-- ===== src/Accounts.antt =====
-- src/accounts/accounts.service.ts. The rows of `listAccounts` come in table order: the model of an account
-- has no creation time.
pub mod Laws
use hwala.Base.{
  ℕ, suc, ◌*◌, String, Bool, true, false, ◌&&◌, Option, none, some, List, [], ◌∷◌, ltb, ◌==◌,
  length, filter, order_desc, if◌then◌else◌,
}
use hwala.Base.Int.{ℤ, pos, abs, ltb_ℤ}
use hwala.Base.Result.{Result, ok, err, bad_request, not_found}
use hwala.Base.Table.{Table, lookup}
use hwala.Db.{Db, Tenant, Account, AccountType, LedgerEntry}
use hwala.Db.Tx.{account_create}
use hwala.Db.Measure.{tenant_ledger}

-- The row of a new account; the schema's defaults fill the rest.
abbrev pub account_row : ℕ → ℕ → AccountType → ℤ → Account
account_row tenant_id user_id type initial_balance = record {
  tenant_id = tenant_id;
  user_id = user_id;
  type = type;
  currency = "USD";
  balance = initial_balance;
  hold_balance = pos 0;
  version = 1;
}

abbrev pub created : ℕ → Account → Db → Result (Unit {0} × Db) → Result Account × Db
created id a db (ok (_, db')) = (ok a, db')
created id a db (err e) = (err e, db)

abbrev pub create_for : ℕ → Account → Option Tenant → Db → Result Account × Db
create_for id a none db = (err (bad_request "Tenant not found"), db)
create_for id a (some _) db = created id a db (account_create id a db)

-- `createAccount`; `new_id` is the generated key, and a missing argument is `none`.
unfoldable pub create_account :
    (new_id : ℕ) → Option ℕ → Option ℕ → Option AccountType → ℤ → Db → Result Account × Db
create_account new_id (some tenant_id) (some user_id) (some type) initial_balance db =
    if ltb_ℤ initial_balance (pos 0)
    then (err (bad_request "Initial balance cannot be negative"), db)
    else create_for new_id (account_row tenant_id user_id type initial_balance)
        (lookup tenant_id db.tenants) db
create_account new_id _ _ _ initial_balance db =
    (err (bad_request "tenantId, userId, and type are required"), db)

-- `listAccounts`
unfoldable pub list_accounts : ℕ → Db → Table Account
list_accounts tenant_id db =
    filter (λ (row : ℕ × Account). row.1.tenant_id == tenant_id) db.accounts

-- The account under an id and a tenant.
abbrev pub account_of_tenant : ℕ → Option Account → Option Account
account_of_tenant tenant_id none = none
account_of_tenant tenant_id (some a) = if a.tenant_id == tenant_id then some a else none

abbrev pub ledger_of_account : ℕ → ℕ → List LedgerEntry → List LedgerEntry
ledger_of_account tenant_id account_id es =
    order_desc (λ (e : LedgerEntry). e.created_at)
      (filter (λ (e : LedgerEntry). e.account_id == account_id && e.tenant_id == tenant_id) es)

abbrev pub with_entries : ℕ → ℕ → Db → Option Account → Result (Account × List LedgerEntry)
with_entries tenant_id account_id db none = err (not_found "Account not found for this tenant")
with_entries tenant_id account_id db (some a) =
    ok (a, ledger_of_account tenant_id account_id db.ledger)

-- `getAccountLedger`
unfoldable pub get_account_ledger : ℕ → ℕ → Db → Result (Account × List LedgerEntry)
unfolding order_desc
get_account_ledger tenant_id account_id db =
    with_entries tenant_id account_id db
      (account_of_tenant tenant_id (lookup account_id db.accounts))

pub record Health : Type 0 where
  pub is_balanced : Bool
  pub total_ledger_sum : ℤ
  pub total_accounts : ℕ
  pub status : String

-- `Math.abs(totalSum) < 0.001`, for a sum in cents.
abbrev pub is_balanced_sum : ℤ → Bool
is_balanced_sum total_sum = ltb (10 * abs total_sum) 1

-- `reconcileTenantBalance`
unfoldable pub reconcile_tenant_balance : ℕ → Db → Health
unfolding list_accounts
reconcile_tenant_balance tenant_id db =
    let total_sum = tenant_ledger tenant_id db in
    record {
      is_balanced = is_balanced_sum total_sum;
      total_ledger_sum = total_sum;
      total_accounts = length (list_accounts tenant_id db);
      status = if is_balanced_sum total_sum then "HEALTHY" else "RECONCILIATION_FAILED";
    }
