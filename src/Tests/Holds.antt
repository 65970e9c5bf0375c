-- ===== src/Tests/Holds.antt =====
-- Holds, captures and releases of the small bank.
use hwala.Base.{ℕ, arith, ◌≡◌, refl, none, some, [], ◌∷◌}
use hwala.Base.Int.{pos, ◌≤ℤ◌, ◌<ℤ◌, ◌+ℤ◌, ◌-ℤ◌, ◌*ℤ◌, neg, int_laws}
use hwala.Base.Result.{ok}
use hwala.Base.Table.{lookup, insert}
use hwala.Db.{Db, LedgerEntry, wallet}
use hwala.Db.Tx.{account_update, ledger_create, outbox_create}
use hwala.Db.Measure.{drift, balance_of, hold_of, at}
use hwala.Transfer.Balances.{NonNeg}
use hwala.Transfer.Execute.{Env}
use hwala.Transfer.Hold.{
  HoldReceipt, ReleaseReceipt, find_hold, held_amount, hold_funds, release_hold, hold_body,
  check_available, write_hold, release_body, check_release, write_release,
}
use hwala.Transfer.Capture.{
  CaptureReceipt, capture_hold, capture_body, check_capture_sender, check_capture_receiver,
  release_remainder, write_capture,
}
use hwala.Transfer.HoldNonNeg.{IsBacked, capture_hold-NonNeg, capture_hold-overdraws}
use hwala.Transfer.CaptureLaws.{capture_hold-effect}
use hwala.Transfer.HoldCycle.{hold_funds-release_hold, hold_funds-capture_hold}
use hwala.Tests.{env, bank, bank_with_hold, hold_entry, db_of, account}

abbrev held : Db
held = (hold_funds env (some 1) 10 (pos 5000) "deposit" bank).1

abbrev captured : Db
captured = (capture_hold env (some 1) 700 11 (pos 3000) "sale" bank_with_hold).1

capture_runs :
    (receipt : CaptureReceipt) × (capture_hold env (some 1) 700 11 (pos 3000) "sale" bank_with_hold
      ≡ (ok receipt, captured))
unfolding capture_hold capture_body check_capture_sender check_capture_receiver release_remainder
    write_capture find_hold lookup ◌+ℤ◌ ◌-ℤ◌ ◌*ℤ◌ account_update neg insert ledger_create
    outbox_create
capture_runs = (_, refl)

abbrev released : Db
released = (release_hold env (some 1) 700 (pos 2000) "return" bank_with_hold).1

capture_hold-effect_example :
    (e : LedgerEntry) × (tenant_id : ℕ) × (some 1 ≡ some tenant_id)
    × (find_hold tenant_id 700 bank_with_hold.ledger ≡ some e)
    × (pos 3000 ≤ℤ held_amount e)
    × (pos 3000 ≤ℤ hold_of e.account_id bank_with_hold)
    × (pos 0 <ℤ pos 3000)
    × ((k : ℕ)
        → (balance_of k captured
            ≡ balance_of k bank_with_hold
              +ℤ at k 11 (pos 3000)
              +ℤ at k e.account_id (held_amount e -ℤ pos 3000))
          × (hold_of k captured ≡ hold_of k bank_with_hold -ℤ at k e.account_id (held_amount e))
          × (drift k captured
              ≡ drift k bank_with_hold -ℤ at k e.account_id (held_amount e -ℤ pos 3000)))
capture_hold-effect_example =
    capture_hold-effect env (some 1) 700 11 (pos 3000) "sale" bank_with_hold capture_runs.0 captured
      capture_runs.1

bank_with_hold-NonNeg : NonNeg bank_with_hold
unfolding balance_of hold_of lookup
bank_with_hold-NonNeg k = (grind (int_laws, arith), grind (int_laws, arith))

bank_with_hold-IsBacked : IsBacked (some 1) 700 bank_with_hold
unfolding find_hold hold_of lookup neg
bank_with_hold-IsBacked tenant_id e p q = ground arith

capture_hold-NonNeg_example :
    NonNeg (capture_hold env (some 1) 700 11 (pos 3000) "sale" bank_with_hold).1
capture_hold-NonNeg_example =
    capture_hold-NonNeg env (some 1) 700 11 (pos 3000) "sale" bank_with_hold bank_with_hold-IsBacked
      bank_with_hold-NonNeg

-- After a release of 20.00 the hold is captured in part.
abbrev half_held : Db
half_held =
    db_of ((10, account wallet 97000 3000) ∷ (11, account wallet 0 0) ∷ []) (hold_entry ∷ [])

abbrev overdrawn : Db
overdrawn = (capture_hold env (some 1) 700 11 (pos 3000) "sale" half_held).1

overdraw_runs :
    (receipt : CaptureReceipt) × (capture_hold env (some 1) 700 11 (pos 3000) "sale" half_held
      ≡ (ok receipt, overdrawn))
unfolding capture_hold capture_body check_capture_sender check_capture_receiver release_remainder
    write_capture find_hold lookup ◌+ℤ◌ ◌-ℤ◌ ◌*ℤ◌ account_update neg insert ledger_create
    outbox_create
overdraw_runs = (_, refl)

half_held-short : hold_of 10 half_held <ℤ held_amount hold_entry
unfolding hold_of lookup neg
half_held-short = ground arith

half_held-find : find_hold 1 700 half_held.ledger ≡ some hold_entry
unfolding find_hold
half_held-find = refl

capture_hold-overdraws_example : hold_of 10 overdrawn <ℤ pos 0
capture_hold-overdraws_example =
    capture_hold-overdraws env 1 700 11 (pos 3000) "sale" half_held overdraw_runs.0 overdrawn
      hold_entry overdraw_runs.1 half_held-find half_held-short

-- The hold of 50.00 on account 10, released in full or captured in part right after.
abbrev hold_receipt : HoldReceipt
hold_receipt = record {
  hold_id = env.transaction_id;
  account_id = 10;
  amount = pos 5000;
  status = "HELD";
}

receipt_runs : hold_funds env (some 1) 10 (pos 5000) "deposit" bank ≡ (ok hold_receipt, held)
unfolding hold_funds hold_body check_available write_hold lookup ◌+ℤ◌ ◌-ℤ◌ ◌*ℤ◌ account_update neg
    insert ledger_create outbox_create
receipt_runs = refl

abbrev env_next : Env
env_next = record env { transaction_id = 501; outbox_id = 503 }

abbrev freed : Db
freed = (release_hold env_next (some 1) hold_receipt.hold_id (pos 5000) "return" held).1

free_runs :
    (receipt : ReleaseReceipt) × (release_hold env_next
        (some 1)
        hold_receipt.hold_id
        (pos 5000)
        "return"
        held
      ≡ (ok receipt, freed))
unfolding hold_funds hold_body check_available write_hold release_hold release_body check_release
    write_release find_hold lookup ◌+ℤ◌ ◌-ℤ◌ ◌*ℤ◌ account_update neg insert ledger_create
    outbox_create
free_runs = (_, refl)

bank-fresh : (tenant_id : ℕ) → find_hold tenant_id env.transaction_id bank.ledger ≡ none
unfolding find_hold
bank-fresh tenant_id = refl

hold_funds-release_hold_example :
    (balance_of 10 freed ≡ balance_of 10 bank)
    × (hold_of 10 freed ≡ hold_of 10 bank)
    × (drift 10 freed ≡ drift 10 bank)
hold_funds-release_hold_example =
    hold_funds-release_hold env env_next (some 1) 10 (pos 5000) "deposit" "return" bank held freed
      hold_receipt free_runs.0 10 bank-fresh receipt_runs free_runs.1

abbrev sold : Db
sold = (capture_hold env_next (some 1) hold_receipt.hold_id 11 (pos 3000) "sale" held).1

sale_runs :
    (receipt : CaptureReceipt) × (capture_hold env_next
        (some 1)
        hold_receipt.hold_id
        11
        (pos 3000)
        "sale"
        held
      ≡ (ok receipt, sold))
unfolding hold_funds hold_body check_available write_hold capture_hold capture_body
    check_capture_sender check_capture_receiver release_remainder write_capture find_hold lookup
    ◌+ℤ◌ ◌-ℤ◌ ◌*ℤ◌ account_update neg insert ledger_create outbox_create
sale_runs = (_, refl)

hold_funds-capture_hold_example :
    (balance_of 10 sold ≡ balance_of 10 bank +ℤ at 10 11 (pos 3000) -ℤ at 10 10 (pos 3000))
    × (hold_of 10 sold ≡ hold_of 10 bank)
    × (drift 10 sold ≡ drift 10 bank +ℤ at 10 10 (pos 3000))
hold_funds-capture_hold_example =
    hold_funds-capture_hold env env_next (some 1) 10 11 (pos 5000) (pos 3000) "deposit" "sale" bank
      held sold hold_receipt sale_runs.0 10 bank-fresh receipt_runs sale_runs.1
