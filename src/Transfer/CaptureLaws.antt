-- ===== src/Transfer/CaptureLaws.antt =====
-- What `captureHold` of src/transfer/transfer.service.ts does to the money, to the two amounts of every
-- account and to its books.
use hwala.Base.{ℕ, ◌≡◌, ◌∙◌, String, Option, some, Bool-cases, inl, inr}
use hwala.Base.Int.{ℤ, pos, ◌+ℤ◌, ◌-ℤ◌, ◌≤ℤ◌, ◌<ℤ◌, neg, ltb_ℤ, int_laws}
use hwala.Base.Result.{ok}
use hwala.Db.{Db, LedgerEntry}
use hwala.Db.Measure.{money, balance_of, hold_of, sum_for, drift, at, at_laws, hold_of-some}
use hwala.Db.Measure.Instances.{money_measure, balance_measure, hold_measure, drift_measure}
use hwala.Transfer.Execute.{Env}
use hwala.Transfer.Hold.{held_amount, find_hold}
use hwala.Transfer.Capture.{CaptureReceipt, capture_hold}
use hwala.Transfer.HoldEffects.{write_capture-Shifts, remainder_delta}
use hwala.Transfer.CaptureRuns.{capture_hold-Captured}
use hwala.Transfer.HoldFailed.{capture_hold_atomic}
use hwala.Transfer.HoldLaws.{unchanged}

remainder_money :
    (env : Env) (tenant_id s : ℕ) (remainder : ℤ)
    → remainder_delta money_measure env tenant_id s remainder ≡ pos 0
remainder_money env tenant_id s remainder = elim (Bool-cases (ltb_ℤ (pos 0) remainder)) [
  | inl e ↦ rw e (omega int_laws)
  | inr e ↦ rw e
]

-- Capturing a hold, in full or in part, whether it returns or throws, creates and loses no money: the sum of
-- all available and held balances stays.
pub capture_hold-money :
    (env : Env) (tenant : Option ℕ) (hold_id receiver_id : ℕ) (amount : ℤ) (description : String)
    (db : Db)
    → money (capture_hold env tenant hold_id receiver_id amount description db).1 ≡ money db
capture_hold-money env tenant hold_id r amount description db =
    unchanged money db _
      (λ receipt db' h.
        let x = capture_hold-Captured env tenant hold_id r amount description db receipt db' h in
        let s = x.hold_entry.account_id in
        let remainder = held_amount x.hold_entry -ℤ amount in
        write_capture-Shifts money_measure env x.tenant_id hold_id s r amount remainder description
          db receipt db' x.written
        ∙ rw (remainder_money env x.tenant_id s remainder) (omega int_laws))
      (capture_hold_atomic env tenant hold_id r amount description db)

-- The remainder of a hold in the measures of one account; nothing is left of a hold that is captured
-- in full.
module _ (k : ℕ) (env : Env) (tenant_id s : ℕ) (remainder : ℤ) (nonneg : pos 0 ≤ℤ remainder) where
  remainder_balance :
      remainder_delta (balance_measure k) env tenant_id s remainder ≡ at k s remainder
  unfolding at
  remainder_balance = grind int_laws

  remainder_hold :
      remainder_delta (hold_measure k) env tenant_id s remainder ≡ neg (at k s remainder)
  unfolding at
  remainder_hold = grind int_laws

  remainder_drift :
      remainder_delta (drift_measure k) env tenant_id s remainder ≡ neg (at k s remainder)
  unfolding at sum_for
  remainder_drift = grind int_laws

-- A capture of a whole number of cents takes the whole held amount out of the held balance of the hold's account: the captured
-- amount goes to the receiver's available balance, the remainder to the account's own; no other
-- account is touched. Of the lag of the account's books, the remainder is made up.
pub capture_hold-effect :
    (env : Env) (tenant : Option ℕ) (hold_id receiver_id : ℕ) (amount : ℤ) (description : String)
    (db : Db) (receipt : CaptureReceipt) (db' : Db)
    → capture_hold env tenant hold_id receiver_id amount description db ≡ (ok receipt, db')
    → (e : LedgerEntry) × (tenant_id : ℕ) × (tenant ≡ some tenant_id)
      × (find_hold tenant_id hold_id db.ledger ≡ some e)
      × (amount ≤ℤ held_amount e)
      × (amount ≤ℤ hold_of e.account_id db)
      × (pos 0 <ℤ amount)
      × ((k : ℕ)
          → (balance_of k db'
              ≡ balance_of k db
                +ℤ at k receiver_id amount
                +ℤ at k e.account_id (held_amount e -ℤ amount))
            × (hold_of k db' ≡ hold_of k db -ℤ at k e.account_id (held_amount e))
            × (drift k db' ≡ drift k db -ℤ at k e.account_id (held_amount e -ℤ amount)))
unfolding sum_for
capture_hold-effect env tenant hold_id r amount description db receipt db' h =
    let x = capture_hold-Captured env tenant hold_id r amount description db receipt db' h in
    let s = x.hold_entry.account_id in
    let remainder = held_amount x.hold_entry -ℤ amount in
    let left : pos 0 ≤ℤ remainder = omega (int_laws, x.within_hold) in
    (
      x.hold_entry,
      x.tenant_id,
      x.is_tenant,
      x.has_hold,
      x.within_hold,
      rw (hold_of-some s x.sender db x.found_sender) x.covered,
      x.positive,
      λ k. (
        write_capture-Shifts (balance_measure k) env x.tenant_id hold_id s r amount remainder
              description db receipt db' x.written
            ∙ rw (remainder_balance k env x.tenant_id s remainder left)
                (simp at_laws (omega int_laws)),
        write_capture-Shifts (hold_measure k) env x.tenant_id hold_id s r amount remainder
              description db receipt db' x.written
            ∙ rw (remainder_hold k env x.tenant_id s remainder left)
                (simp at_laws (omega int_laws)),
        write_capture-Shifts (drift_measure k) env x.tenant_id hold_id s r amount remainder
              description db receipt db' x.written
            ∙ rw (remainder_drift k env x.tenant_id s remainder left)
                (simp at_laws (omega int_laws)),
      ),
    )
