-- ===== src/Risk.antt =====
-- src/risk/risk.service.ts: the rules that a transfer is checked against, and the flags.
pub mod Flags
pub mod Queries
use hwala.Base.{
  ℕ, ◌+◌, ◌-◌, String, Bool, true, false, not, ◌&&◌, Option, none, some, List, [], ◌∷◌, ◌++◌, ltb,
  leb, ◌==◌, length, filter, if◌then◌else◌,
}
use hwala.Base.Int.{ℤ, pos, ltb_ℤ}
use hwala.Base.Result.{Result, ok, err, not_found}
use hwala.Base.Table.{Table, lookup, insert}
use hwala.Db.{Db, RiskSeverity, RiskStatus, RiskFlag, LedgerEntry, high, critical, open_flag}
use hwala.Velocity.{pipeline, window_ms}

abbrev pub velocity_limit : ℕ
velocity_limit = 10

-- $10,000 in cents.
abbrev pub high_value_threshold : ℕ
high_value_threshold = 1000000

-- What the environment gives one evaluation: the time, whether the service has a Redis client, and whether it answers,
-- the keys of the flags and whether their rows can be written.
pub record RiskEnv : Type 0 where
  pub now : ℕ
  pub has_redis : Bool
  pub redis_up : Bool
  pub flag_id : RiskSeverity → ℕ
  pub flag_saved : RiskSeverity → Bool

pub record RiskEvaluationResult : Type 0 where
  pub allowed : Bool
  pub blocked : Bool
  pub flags : List RiskFlag
  pub reasons : List String

-- The database fallback: the entries of the account in the last minute.
abbrev pub recent_entries : ℕ → ℕ → List LedgerEntry → ℕ
recent_entries now account_id es = length (
    filter (λ (e : LedgerEntry). e.account_id == account_id && leb now (e.created_at + window_ms))
      es)

-- `getAccountTransferVelocity`
unfoldable pub get_account_transfer_velocity :
    RiskEnv → ℕ → Db → Table (List ℕ) → ℕ × Table (List ℕ)
unfolding pipeline
get_account_transfer_velocity env account_id db sets =
    if env.has_redis && env.redis_up
    then pipeline env.now account_id sets
    else (recent_entries env.now account_id db.ledger, sets)

-- The loop over `flagsToCreate`: a flag that cannot be written is logged and skipped.
pub create_flags : RiskEnv → ℕ → ℕ → List (String × RiskSeverity) → Db → List RiskFlag × Db
create_flags env tenant_id account_id [] db = ([], db)
create_flags env tenant_id account_id ((reason, severity) ∷ flags) db =
    let flag : RiskFlag = record {
      tenant_id = tenant_id;
      account_id = account_id;
      reason = reason;
      severity = severity;
      status = open_flag;
      created_at = env.now;
    } in
    let db' : Db = record db { risk_flags = insert (env.flag_id severity) flag db.risk_flags } in
    let (created, final) =
      create_flags env tenant_id account_id flags (if env.flag_saved severity then db' else db) in
    (if env.flag_saved severity then flag ∷ created else created, final)

abbrev pub velocity_reason : String
velocity_reason = "Velocity limit exceeded"

abbrev pub high_value_reason : String
high_value_reason = "High-value transfer alert"

-- The two rules: the flags to create, from the velocity and the amount.
unfoldable pub triggered : ℕ → ℤ → List (String × RiskSeverity)
triggered velocity_count amount =
    (if ltb velocity_limit velocity_count then (velocity_reason, critical) ∷ [] else [])
    ++ (if ltb_ℤ (pos high_value_threshold) amount then (high_value_reason, high) ∷ [] else [])

abbrev pub reasons_of : List (String × RiskSeverity) → List String
reasons_of [] = []
reasons_of ((reason, _) ∷ flags) = reason ∷ reasons_of flags

-- `evaluateTransaction`
unfoldable pub evaluate_transaction :
    RiskEnv
    → (tenant_id account_id : ℕ) → ℤ
    → Db
    → Table (List ℕ)
    → RiskEvaluationResult × Db × Table (List ℕ)
unfolding create_flags triggered get_account_transfer_velocity
evaluate_transaction env tenant_id account_id amount db sets =
    let (velocity_count, sets') = get_account_transfer_velocity env account_id db sets in
    let flags_to_create = triggered velocity_count amount in
    let is_blocked = ltb velocity_limit velocity_count in
    let (created, db') = create_flags env tenant_id account_id flags_to_create db in
    (
      record {
        allowed = not is_blocked;
        blocked = is_blocked;
        flags = created;
        reasons = reasons_of flags_to_create;
      },
      db',
      sets',
    )

-- `updateRiskFlagStatus`: the flag is looked for under its id and its tenant.
abbrev pub of_tenant : ℕ → Option RiskFlag → Option RiskFlag
of_tenant tenant_id none = none
of_tenant tenant_id (some f) = if f.tenant_id == tenant_id then some f else none

abbrev pub set_status : ℕ → RiskStatus → Option RiskFlag → Db → Result RiskFlag × Db
set_status id status none db = (err (not_found "Risk flag not found"), db)
set_status id status (some f) db =
    let f' : RiskFlag = record f { status = status } in
    (ok f', record db { risk_flags = insert id f' db.risk_flags })

unfoldable pub update_risk_flag_status : ℕ → ℕ → RiskStatus → Db → Result RiskFlag × Db
update_risk_flag_status tenant_id id status db =
    set_status id status (of_tenant tenant_id (lookup id db.risk_flags)) db
