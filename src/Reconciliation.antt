-- ===== src/Reconciliation.antt =====
-- `reconcileLedger` of src/reconciliation/reconciliation.service.ts. The report is what the job logs: its
-- errors, in order, and the numbers of its last line.
pub mod Laws
use hwala.Base.{
  ℕ, suc, ◌*◌, ◌+◌, Bool, true, false, not, Option, none, some, List, [], ◌∷◌, ◌++◌, ltb, ◌==◌,
  length, if◌then◌else◌,
}
use hwala.Base.Int.{ℤ, pos, abs, ◌+ℤ◌, ◌-ℤ◌}
use hwala.Base.Table.{Table, lookup, insert}
use hwala.Db.{Db, Account, LedgerEntry}
use hwala.Db.Measure.{worth}

-- `ledgerMap.get(id) ?? 0`
abbrev pub sum_or_zero : Option ℤ → ℤ
sum_or_zero none = pos 0
sum_or_zero (some x) = x

-- The sums grouped by account, as `ledgerMap` holds them.
unfoldable pub ledger_map : List LedgerEntry → Table ℤ
ledger_map [] = []
ledger_map (e ∷ es) =
    let rest = ledger_map es in
    insert e.account_id (e.amount +ℤ sum_or_zero (lookup e.account_id rest)) rest

pub data Alarm : Type 0 where
  mismatch : (account_id : ℕ) (ledger_sum actual_total : ℤ) → Alarm
  orphan : (account_id : ℕ) (ledger_sum : ℤ) → Alarm

-- `Math.abs(ledgerSum - actualTotal) > 0.001`, for amounts in cents.
abbrev pub differs : ℤ → ℤ → Bool
differs a b = ltb 1 (10 * abs (a -ℤ b))

-- The loop over the accounts.
unfoldable pub check_accounts : Table ℤ → Table Account → List Alarm
check_accounts sums [] = []
check_accounts sums ((id, a) ∷ rows) =
    let rest = check_accounts sums rows in
    let ledger_sum = sum_or_zero (lookup id sums) in
    if differs ledger_sum (worth a) then mismatch id ledger_sum (worth a) ∷ rest else rest

abbrev pub is_some : {A : Type 0} → Option A → Bool
is_some none = false
is_some (some _) = true

-- The loop over `ledgerMap.entries()`.
unfoldable pub check_orphans : Table Account → Table ℤ → List Alarm
check_orphans accounts [] = []
check_orphans accounts ((id, sum) ∷ rows) =
    let rest = check_orphans accounts rows in
    if is_some (lookup id accounts) then rest else orphan id sum ∷ rest

pub record Report : Type 0 where
  pub accounts_checked : ℕ
  pub mismatch_count : ℕ
  pub alarms : List Alarm

-- `reconcileLedger`; it writes nothing. `up` says that both queries return: if one throws, the job
-- logs that and reports nothing.
unfoldable pub reconcile_ledger : Bool → Db → Option Report
unfolding ledger_map check_accounts check_orphans
reconcile_ledger false db = none
reconcile_ledger true db =
    let sums = ledger_map db.ledger in
    let alarms = check_accounts sums db.accounts ++ check_orphans db.accounts sums in
    some (record {
      accounts_checked = length db.accounts;
      mismatch_count = length alarms;
      alarms = alarms;
    })
