-- ===== src/Tests.antt =====
-- A small bank for the tests: two tenants, the accounts of the first, and the requests made of them.
mod Transfers
mod Holds
mod Services
mod Access
mod Api
mod Requests
mod Events
mod Rates
mod Rules
mod Startup
mod Http
use hwala.Base.{ℕ, Bool, true, false, Option, none, some, List, [], ◌∷◌, String}
use hwala.Base.Int.{ℤ, pos, negsuc}
use hwala.Base.Table.{Table}
use hwala.Db.{
  Db, Tenant, Account, AccountType, LedgerEntry, LedgerEntryType, RiskSeverity, wallet,
  platform_revenue,
}
use hwala.Risk.{RiskEnv}
use hwala.Transfer.Execute.{Env, World}

-- A fee of 30 cents and 2.9 percent.
abbrev pub tenant : Tenant
tenant = record {
  webhook_secret = some "secret";
  webhook_url = some "https://merchant.example/hooks";
  base_currency = "USD";
  fee_fixed = pos 30;
  fee_percentage = pos 290;
}

abbrev pub account : AccountType → ℕ → ℕ → Account
account type balance held = record {
  tenant_id = 1;
  user_id = 7;
  type = type;
  currency = "USD";
  balance = pos balance;
  hold_balance = pos held;
  version = 1;
}

abbrev pub opening : ℕ → ℕ → LedgerEntry
opening id amount = record {
  tenant_id = 1;
  transaction_id = 900;
  account_id = id;
  amount = pos amount;
  fee_amount = pos 0;
  type = LedgerEntryType.transfer;
  description = "opening";
  created_at = 0;
}

abbrev pub db_of : Table Account → List LedgerEntry → Db
db_of accounts ledger = record {
  tenants = (1, tenant) ∷ [];
  users = [];
  api_keys = [];
  accounts = accounts;
  ledger = ledger;
  outbox = [];
  failures = [];
  audit_logs = [];
  risk_flags = [];
}

-- Account 10 has 1000.00 and account 11 has 0.00; 12 is the revenue account.
abbrev pub bank : Db
bank =
    db_of
      ((10, account wallet 100000 0)
        ∷ (11, account wallet 0 0)
        ∷ (12, account platform_revenue 0 0)
        ∷ [])
      (opening 10 100000 ∷ [])

-- The same bank, where 10 holds 50.00 for the hold of transaction 700.
abbrev pub hold_entry : LedgerEntry
hold_entry = record {
  tenant_id = 1;
  transaction_id = 700;
  account_id = 10;
  amount = negsuc 4999;
  fee_amount = pos 0;
  type = LedgerEntryType.hold;
  description = "deposit";
  created_at = 5;
}

abbrev pub bank_with_hold : Db
bank_with_hold =
    db_of ((10, account wallet 95000 5000) ∷ (11, account wallet 0 0) ∷ [])
      (opening 10 100000 ∷ hold_entry ∷ [])

abbrev pub env : Env
env = record {
  has_security = true;
  has_risk = true;
  redis_up = true;
  risk = record {
    now = 1000000;
    has_redis = true;
    redis_up = true;
    flag_id = λ s. 800;
    flag_saved = λ s. true;
  };
  transaction_id = 500;
  revenue_id = 501;
  outbox_id = 502;
  now = 1000000;
}

abbrev pub world : Db → World
world db = record { db = db; security_sets = []; risk_sets = [] }
