-- ===== src/Accounts/Laws.antt =====
-- The books of new accounts, of holds and of captures, as the two reconciliations see them
-- (src/accounts/accounts.service.ts, src/reconciliation/reconciliation.service.ts).
use mathlib.Core.List.{Mem}
use mathlib.Core.Option.{some-injective}
use hwala.Base.{ℕ, ◌≡◌, sym, ap, ◌∙◌, ◌≢◌, String, true, false, Option, some, arith, ==-refl}
use hwala.Base.Int.{ℤ, pos, ◌+ℤ◌, ◌-ℤ◌, ◌<ℤ◌, neg, int_laws}
use hwala.Base.Result.{ok}
use hwala.Base.Table.{lookup}
use hwala.Db.{Db, Account}
use hwala.Db.Measure.{
  worth, ledger_of, tenant_ledger, sum_of_tenant, drift, at, balance_of-some, hold_of-some,
}
use hwala.Db.Measure.Instances.{tenant_measure}
use hwala.Transfer.Execute.{Env}
use hwala.Transfer.Hold.{HoldReceipt, hold_funds}
use hwala.Transfer.HoldRuns.{hold_funds-Held}
use hwala.Transfer.HoldEffects.{write_hold-Shifts}
use hwala.Transfer.HoldLaws.{hold_funds-effect}
use hwala.Reconciliation.{mismatch, Report, reconcile_ledger}
use hwala.Reconciliation.Laws.{reconcile_ledger-reports}
use hwala.Accounts.{is_balanced_sum, reconcile_tenant_balance}

drift-some :
    (k : ℕ) (a : Account) (db : Db)
    → lookup k db.accounts ≡ some a
    → drift k db ≡ worth a -ℤ ledger_of k db
unfolding drift
drift-some k a db e = rw (balance_of-some k a db e, hold_of-some k a db e)

-- The nightly job reports every account that has a row and whose drift is not zero.
drift-reported :
    (db : Db) (k : ℕ) (a : Account) (report : Report)
    → lookup k db.accounts ≡ some a
    → drift k db ≢ pos 0
    → reconcile_ledger true db ≡ some report
    → Mem (mismatch k (ledger_of k db) (worth a)) report.alarms
drift-reported db k a report found n h =
    reconcile_ledger-reports db k a report found
      (λ e. n (drift-some k a db found ∙ ap (λ t. worth a -ℤ t) e ∙ self (worth a))) h
  where
    self : (x : ℤ) → x -ℤ x ≡ pos 0
    self x = omega int_laws

-- The health check of a tenant is exactly the test whether its entries add up to zero.
is_balanced_iff : (x : ℤ) → is_balanced_sum x ≡ true → x ≡ pos 0
is_balanced_iff x h = ground arith

one_sided :
    (amount : ℤ)
    → pos 0 <ℤ amount
    → is_balanced_sum (pos 0 +ℤ (pos 0 +ℤ (neg amount +ℤ pos 0))) ≡ false
one_sided amount h = grind int_laws

positive_sum : (amount : ℤ) → pos 0 <ℤ amount → ¬ (pos 0 +ℤ amount ≡ pos 0)
positive_sum amount h e = grind int_laws

-- A hold that is placed makes a balanced tenant unbalanced: it writes one entry and no other against it.
pub hold_funds-unhealthy :
    (env : Env) (tenant_id account_id : ℕ) (amount : ℤ) (description : String) (db : Db)
    (receipt : HoldReceipt) (db' : Db)
    → hold_funds env (some tenant_id) account_id amount description db ≡ (ok receipt, db')
    → (reconcile_tenant_balance tenant_id db).is_balanced ≡ true
    → (reconcile_tenant_balance tenant_id db').is_balanced ≡ false
unfolding reconcile_tenant_balance sum_of_tenant
hold_funds-unhealthy env tenant_id account_id amount description db receipt db' h healthy =
    let x = hold_funds-Held env (some tenant_id) account_id amount description db receipt db' h in
    let same = some-injective _ _ x.is_tenant in
    let moved =
      write_hold-Shifts (tenant_measure tenant_id) env x.tenant_id account_id amount description db
        receipt db' x.written in
    rw (moved, ← same, ==-refl tenant_id, is_balanced_iff (tenant_ledger tenant_id db) healthy)
      (one_sided amount x.positive)

-- An account whose books agreed before a hold is reported by a run of the nightly job after it.
pub hold_funds-reported :
    (env : Env) (tenant : Option ℕ) (account_id : ℕ) (amount : ℤ) (description : String) (db : Db)
    (receipt : HoldReceipt) (db' : Db) (a : Account) (report : Report)
    → drift account_id db ≡ pos 0
    → hold_funds env tenant account_id amount description db ≡ (ok receipt, db')
    → lookup account_id db'.accounts ≡ some a
    → reconcile_ledger true db' ≡ some report
    → Mem (mismatch account_id (ledger_of account_id db') (worth a)) report.alarms
unfolding at
hold_funds-reported env tenant account_id amount description db receipt db' a report clean h found
      r =
    let x = hold_funds-Held env tenant account_id amount description db receipt db' h in
    let (_, _, d) =
      hold_funds-effect env tenant account_id amount description db receipt db' account_id h in
    drift-reported db' account_id a report found
      (λ e. absurd (positive_sum amount x.positive (sym (rw (clean, ==-refl account_id) at d) ∙ e)))
      r
