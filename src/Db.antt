-- ===== src/Db.antt =====
-- The rows of the database (prisma/schema.prisma) that the handlers read and write. A table is an
-- association list by primary key; a UUID is its 128-bit number, whose order is the order of the
-- canonical texts. Money columns, `Decimal(12,2)`, are integers in cents; `feePercentage`,
-- `Decimal(5,4)`, is an integer in ten-thousandths. Columns that no handler reads (`updatedAt`,
-- `createdAt` of an account, `id` of a ledger entry) are left out.
pub mod Tx
pub mod Measure
use hwala.Base.{ℕ, String, Bool, true, false, Option, List, ltb}
use hwala.Base.Int.{ℤ, abs}
use hwala.Base.Table.{Table}

pub data AccountType : Type 0 where
  wallet merchant_payable platform_revenue : AccountType

pub data Role : Type 0 where
  admin support api_user : Role

pub data LedgerEntryType : Type 0 where
  transfer fee hold release refund : LedgerEntryType

pub data OutboxStatus : Type 0 where
  pending processing completed failed : OutboxStatus

pub data RiskSeverity : Type 0 where
  low medium high critical : RiskSeverity

pub data RiskStatus : Type 0 where
  open_flag investigating resolved dismissed : RiskStatus

-- The enums are only compared for equality.
abbrev pub is_revenue : AccountType → Bool
is_revenue platform_revenue = true
is_revenue _ = false

abbrev pub is_hold : LedgerEntryType → Bool
is_hold hold = true
is_hold _ = false

abbrev pub is_pending : OutboxStatus → Bool
is_pending pending = true
is_pending _ = false

pub record Tenant : Type 0 where
  pub webhook_secret : Option String
  pub webhook_url : Option String
  pub base_currency : String
  pub fee_fixed : ℤ
  pub fee_percentage : ℤ

pub record User : Type 0 where
  pub tenant_id : ℕ
  pub email : String
  pub password_hash : String
  pub role : Role

pub record ApiKey : Type 0 where
  pub tenant_id : ℕ
  pub name : String
  pub key_hash : String
  pub scopes : List String

pub record Account : Type 0 where
  pub tenant_id : ℕ
  pub user_id : ℕ
  pub type : AccountType
  pub currency : String
  pub balance : ℤ
  pub hold_balance : ℤ
  pub version : ℕ

pub record LedgerEntry : Type 0 where
  pub tenant_id : ℕ
  pub transaction_id : ℕ
  pub account_id : ℕ
  pub amount : ℤ
  pub fee_amount : ℤ
  pub type : LedgerEntryType
  pub description : String
  pub created_at : ℕ

-- The JSON payload of an event, one constructor for each event that the handlers write, with the
-- fields in the order of the source; `custom` is the data of a job that somebody else queued: its
-- `tenantId`, `targetUrl` and `url`.
pub data Payload : Type 0 where
  transfer_completed :
      (tenant_id transaction_id sender_id receiver_id : ℕ) (amount fee : ℤ) (timestamp : ℕ)
      → Payload
  hold_created : (tenant_id transaction_id account_id : ℕ) (amount : ℤ) (timestamp : ℕ) → Payload
  hold_captured :
      (tenant_id transaction_id hold_id sender_id receiver_id : ℕ) (captured released : ℤ)
      (timestamp : ℕ)
      → Payload
  hold_released :
      (tenant_id transaction_id hold_id account_id : ℕ) (released : ℤ) (timestamp : ℕ) → Payload
  custom : (tenant_id : Option ℕ) (target_url url : Option String) → Payload

pub record WebhookOutbox : Type 0 where
  pub tenant_id : ℕ
  pub event_type : String
  pub payload : Payload
  pub status : OutboxStatus
  pub attempts : ℕ
  pub created_at : ℕ

pub record WebhookFailure : Type 0 where
  pub tenant_id : ℕ
  pub event_type : String
  pub payload : Payload
  pub error : String
  pub retries : ℕ
  pub failed_at : ℕ

pub record AuditLog : Type 0 where
  pub tenant_id : ℕ
  pub user_id : Option ℕ
  pub action : String
  pub target_id : Option ℕ
  pub created_at : ℕ

pub record RiskFlag : Type 0 where
  pub tenant_id : ℕ
  pub account_id : ℕ
  pub reason : String
  pub severity : RiskSeverity
  pub status : RiskStatus
  pub created_at : ℕ

pub record Db : Type 0 where
  pub tenants : Table Tenant
  pub users : Table User
  pub api_keys : Table ApiKey
  pub accounts : Table Account
  pub ledger : List LedgerEntry
  pub outbox : Table WebhookOutbox
  pub failures : Table WebhookFailure
  pub audit_logs : Table AuditLog
  pub risk_flags : Table RiskFlag

-- A value fits a `Decimal(12,2)` column.
abbrev pub money_limit : ℕ
money_limit = 1000000000000

abbrev pub fits : ℤ → Bool
fits a = ltb (abs a) money_limit
