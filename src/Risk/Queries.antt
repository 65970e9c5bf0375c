-- ===== src/Risk/Queries.antt =====
-- `getRiskFlags` of src/risk/risk.service.ts; `limit` and `offset` are numbers that are not negative.
use hwala.Base.{ℕ, Bool, true, false, ◌&&◌, Option, none, some, ◌==◌, filter, length, map, String}
use hwala.Base.Pages.{page_rows}
use hwala.Base.Table.{Table, lookup}
use hwala.Db.{
  Db, Account, AccountType, RiskFlag, RiskStatus, open_flag, investigating, resolved, dismissed,
}
use hwala.Audit.{or_default}

pub record QueryRiskFlagsOptions : Type 0 where
  pub account_id : Option ℕ
  pub status : Option RiskStatus
  pub limit : Option ℕ
  pub offset : Option ℕ

-- What a flag is joined with: `include: { account: { select: { id, type, currency } } }`.
pub record FlagAccount : Type 0 where
  pub id : ℕ
  pub type : AccountType
  pub currency : String

-- A flag with the account that it names; the foreign key says that there is one.
abbrev pub FlagRow : Type 0
FlagRow = RiskFlag × Option FlagAccount

pub record RiskFlags : Type 0 where
  pub flags : Table FlagRow
  pub total : ℕ
  pub limit : ℕ
  pub offset : ℕ

abbrev same_status : RiskStatus → RiskStatus → Bool
same_status open_flag open_flag = true
same_status investigating investigating = true
same_status resolved resolved = true
same_status dismissed dismissed = true
same_status _ _ = false

abbrev account_matches : Option ℕ → ℕ → Bool
account_matches none a = true
account_matches (some b) a = b == a

abbrev status_matches : Option RiskStatus → RiskStatus → Bool
status_matches none s = true
status_matches (some r) s = same_status r s

-- The `where` of a query.
unfoldable pub selected_flag : ℕ → QueryRiskFlagsOptions → RiskFlag → Bool
selected_flag tenant_id options f =
    f.tenant_id == tenant_id
    && (account_matches options.account_id f.account_id && status_matches options.status f.status)

abbrev pub shown_account : ℕ → Option Account → Option FlagAccount
shown_account id none = none
shown_account id (some a) = some (record { id = id; type = a.type; currency = a.currency })

abbrev pub with_account : Table Account → ℕ × RiskFlag → ℕ × FlagRow
with_account accounts (id, f) = (id, (f, shown_account f.account_id (lookup f.account_id accounts)))

-- `getRiskFlags`. Rows of equal time come in the order of the table here; the database leaves their order open.
unfoldable pub get_risk_flags : ℕ → QueryRiskFlagsOptions → Db → RiskFlags
get_risk_flags tenant_id options db =
    let limit = or_default options.limit 50 in
    let offset = or_default options.offset 0 in
    let matching = λ (row : ℕ × RiskFlag). selected_flag tenant_id options row.1 in
    record {
      flags = map (with_account db.accounts) (
          page_rows (λ (row : ℕ × RiskFlag). row.1.created_at) matching limit offset db.risk_flags);
      total = length (filter matching db.risk_flags);
      limit = limit;
      offset = offset;
    }
