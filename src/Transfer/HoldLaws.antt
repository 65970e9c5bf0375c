-- ===== src/Transfer/HoldLaws.antt =====
-- What the escrow operations of src/transfer/transfer.service.ts do to the money, to the two amounts of
-- every account and to its books.
use hwala.Base.{ℕ, ◌≡◌, refl, ap, ◌∙◌, String, Option, some}
use hwala.Base.Int.{ℤ, pos, ◌+ℤ◌, ◌-ℤ◌, ◌≤ℤ◌, ◌<ℤ◌, int_laws}
use hwala.Base.Result.{Result, ok, err}
use hwala.Db.{Db, LedgerEntry}
use hwala.Db.Measure.{money, balance_of, hold_of, sum_for, drift, at, at_laws, hold_of-some}
use hwala.Db.Measure.Instances.{money_measure, balance_measure, hold_measure, drift_measure}
use hwala.Transfer.Execute.{Env}
use hwala.Transfer.Hold.{
  HoldReceipt, ReleaseReceipt, find_hold, hold_funds, release_hold, held_amount,
}
use hwala.Transfer.HoldEffects.{write_hold-Shifts, write_release-Shifts}
use hwala.Transfer.HoldRuns.{hold_funds-Held, release_hold-Released}
use hwala.Transfer.HoldFailed.{hold_funds_atomic, release_hold_atomic}

-- An operation that leaves a database alone if it throws, and a measure alone if it returns.
pub unchanged :
    {A : Type 0} (μ : Db → ℤ) (db : Db) (res : Result A × Db)
    → ((a : A) (db' : Db) → res ≡ (ok a, db') → μ db' ≡ μ db)
    → ((e : _) (db' : Db) → res ≡ (err e, db') → db' ≡ db)
    → μ res.1 ≡ μ db
unchanged μ db (ok a, db') same atomic = same a db' refl
unchanged μ db (err e, db') same atomic = ap μ (atomic e db' refl)

-- Placing a hold, whether it returns or throws, creates and loses no money: the sum of all available and held
-- balances stays.
pub hold_funds-money :
    (env : Env) (tenant : Option ℕ) (account_id : ℕ) (amount : ℤ) (description : String) (db : Db)
    → money (hold_funds env tenant account_id amount description db).1 ≡ money db
hold_funds-money env tenant account_id amount description db =
    unchanged money db _
      (λ receipt db' h.
        let x = hold_funds-Held env tenant account_id amount description db receipt db' h in
        write_hold-Shifts money_measure env x.tenant_id account_id amount description db receipt db'
          x.written
        ∙ omega int_laws)
      (hold_funds_atomic env tenant account_id amount description db)

-- Releasing a hold, whether it returns or throws, creates and loses no money: the sum of all available and held
-- balances stays.
pub release_hold-money :
    (env : Env) (tenant : Option ℕ) (hold_id : ℕ) (amount : ℤ) (description : String) (db : Db)
    → money (release_hold env tenant hold_id amount description db).1 ≡ money db
release_hold-money env tenant hold_id amount description db =
    unchanged money db _
      (λ receipt db' h.
        let x = release_hold-Released env tenant hold_id amount description db receipt db' h in
        write_release-Shifts money_measure env x.tenant_id hold_id x.hold_entry.account_id amount
          description db receipt db' x.written
        ∙ omega int_laws)
      (release_hold_atomic env tenant hold_id amount description db)

-- A hold that is placed moves its amount from the available to the held balance of its account and
-- touches no other; the account's books fall behind by the amount.
pub hold_funds-effect :
    (env : Env) (tenant : Option ℕ) (account_id : ℕ) (amount : ℤ) (description : String) (db : Db)
    (receipt : HoldReceipt) (db' : Db) (k : ℕ)
    → hold_funds env tenant account_id amount description db ≡ (ok receipt, db')
    → (balance_of k db' ≡ balance_of k db -ℤ at k account_id amount)
      × (hold_of k db' ≡ hold_of k db +ℤ at k account_id amount)
      × (drift k db' ≡ drift k db +ℤ at k account_id amount)
unfolding sum_for
hold_funds-effect env tenant account_id amount description db receipt db' k h =
    let x = hold_funds-Held env tenant account_id amount description db receipt db' h in
    (
      write_hold-Shifts (balance_measure k) env x.tenant_id account_id amount description db receipt
            db' x.written
          ∙ simp at_laws (omega int_laws),
      write_hold-Shifts (hold_measure k) env x.tenant_id account_id amount description db receipt
            db' x.written
          ∙ omega int_laws,
      write_hold-Shifts (drift_measure k) env x.tenant_id account_id amount description db receipt
            db' x.written
          ∙ simp at_laws (omega int_laws),
    )

-- A release moves its amount back, from the held to the available balance of the account that the
-- hold's entry names, and touches no other account; the books catch up by the amount.
pub release_hold-effect :
    (env : Env) (tenant : Option ℕ) (hold_id : ℕ) (amount : ℤ) (description : String) (db : Db)
    (receipt : ReleaseReceipt) (db' : Db)
    → release_hold env tenant hold_id amount description db ≡ (ok receipt, db')
    → (e : LedgerEntry) × (tenant_id : ℕ) × (tenant ≡ some tenant_id)
      × (find_hold tenant_id hold_id db.ledger ≡ some e)
      × (amount ≤ℤ held_amount e)
      × (amount ≤ℤ hold_of e.account_id db)
      × (pos 0 <ℤ amount)
      × ((k : ℕ)
          → (balance_of k db' ≡ balance_of k db +ℤ at k e.account_id amount)
            × (hold_of k db' ≡ hold_of k db -ℤ at k e.account_id amount)
            × (drift k db' ≡ drift k db -ℤ at k e.account_id amount))
unfolding sum_for
release_hold-effect env tenant hold_id amount description db receipt db' h =
    let x = release_hold-Released env tenant hold_id amount description db receipt db' h in
    let id = x.hold_entry.account_id in
    (
      x.hold_entry,
      x.tenant_id,
      x.is_tenant,
      x.has_hold,
      x.within_hold,
      rw (hold_of-some id x.account db x.found) x.covered,
      x.positive,
      λ k. (
        write_release-Shifts (balance_measure k) env x.tenant_id hold_id id amount description db
              receipt db' x.written
            ∙ omega int_laws,
        write_release-Shifts (hold_measure k) env x.tenant_id hold_id id amount description db
              receipt db' x.written
            ∙ simp at_laws (omega int_laws),
        write_release-Shifts (drift_measure k) env x.tenant_id hold_id id amount description db
              receipt db' x.written
            ∙ simp at_laws (omega int_laws),
      ),
    )
