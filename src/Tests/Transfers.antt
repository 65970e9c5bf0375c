-- ===== src/Tests/Transfers.antt =====
-- Transfers of the small bank.
use hwala.Base.{
  ℕ, suc, ap, ◌+◌, ◌/◌, false, ◌<◌, ◌*◌, arith, ◌≡◌, ◌≢◌, ◌⊎◌, refl, Option, none, some, true, List,
  [], ◌∷◌, length, ◌≤◌,
}
use hwala.Base.Int.{ℤ, negsuc, pos, ◌≤ℤ◌, ◌+ℤ◌, ◌-ℤ◌, ◌*ℤ◌, neg}
use hwala.Base.Result.{ok}
use hwala.Base.Table.{lookup, insert}
use hwala.Db.Tx.{account_update, account_create, ledger_create, outbox_create}
use hwala.Db.Measure.{drift, tenant_ledger, balance_of, hold_of, at}
use hwala.Velocity.{enforce_transfer_velocity, pipeline, max_transfers}
use hwala.Velocity.Window.{Attempt, IsChronological, allowed_times, within, window_limit}
use hwala.Risk.{evaluate_transaction, get_account_transfer_velocity, triggered}
use hwala.Transfer.Fee.{total_fee, calculated_fee, max_zero, to_fixed}
use hwala.Transfer.Cents.{IsColumn, decremented, incremented, transfer-half_cent}
use hwala.Transfer.Locks.{transfer_locks, account_ids_to_lock, distinct, sort, remove_id, place}
use hwala.Transfer.LockOrder.{contains}
use hwala.Transfer.Deadlock.{
  System, Reach, Step, WaitsFor, Operation, no_deadlock, locks, update, idle,
}
use hwala.Transfer.Execute.{
  World, Receipt, execute_transfer, transfer_body, charged_transfer, revenue_account, check_sender,
  check_receiver, write_transfer, update_balances, find_revenue, ledger_entries, prepare_revenue,
}
use hwala.Transfer.Conserve.{execute_transfer-ledger, execute_transfer-drift}
use hwala.Transfer.Balances.{fee_credit, execute_transfer-balances}
use hwala.Tests.{env, world, bank}

execute_transfer-ledger_example :
    tenant_ledger 1 (execute_transfer env (some 1) 10 11 (pos 10000) "rent" (world bank)).1.db
    ≡ tenant_ledger 1 bank
execute_transfer-ledger_example =
    execute_transfer-ledger env (some 1) 10 11 (pos 10000) "rent" (world bank) 1

execute_transfer-drift_example :
    drift 10 (execute_transfer env (some 1) 10 11 (pos 10000) "rent" (world bank)).1.db
    ≡ drift 10 bank
execute_transfer-drift_example =
    execute_transfer-drift env (some 1) 10 11 (pos 10000) "rent" (world bank) 10

abbrev after_rent : World
after_rent = (execute_transfer env (some 1) 10 11 (pos 10000) "rent" (world bank)).1

-- The fee of 100.00 is 30 cents and 2.90.
abbrev rent_receipt : Receipt
rent_receipt = record { transaction_id = 500; fee = pos 320; status = "SUCCESS" }

rent_runs :
    execute_transfer env (some 1) 10 11 (pos 10000) "rent" (world bank)
    ≡ (ok rent_receipt, after_rent)
unfolding execute_transfer enforce_transfer_velocity lookup evaluate_transaction transfer_body
    charged_transfer revenue_account total_fee ◌+ℤ◌ ◌-ℤ◌ ◌*ℤ◌ check_sender check_receiver
    write_transfer update_balances account_update neg insert ledger_create account_create
    outbox_create get_account_transfer_velocity triggered find_revenue ledger_entries
    prepare_revenue calculated_fee max_zero to_fixed pipeline
rent_runs = refl

execute_transfer-balances_example :
    (revenue : Option ℕ) × ((revenue ≢ none) ⊎ (pos 320 ≡ pos 0))
    × (pos 10000 +ℤ pos 320 ≤ℤ balance_of 10 bank)
    × (pos 0 ≤ℤ pos 320)
    × ((k : ℕ)
        → (balance_of k after_rent.db
            ≡ balance_of k bank
              -ℤ at k 10 (pos 10000 +ℤ pos 320)
              +ℤ at k 11 (pos 10000)
              +ℤ fee_credit k revenue (pos 320))
          × (hold_of k after_rent.db ≡ hold_of k bank))
execute_transfer-balances_example =
    execute_transfer-balances env (some 1) 10 11 (pos 10000) "rent" (world bank) rent_receipt
      after_rent rent_runs

-- Keys that are the texts' places, doubled.
abbrev cast : ℕ → ℕ
cast id = 2 * id

cast-ordered : (a b : ℕ) → a < b → cast a < cast b
cast-ordered a b h = omega arith

-- Two transfers between the same accounts in opposite directions have begun, and the first has its first lock.
abbrev begun : System
begun =
    update
      (update (λ i. idle) 0
        (record { held = []; todo = locks cast (Operation.transfer 10 11 (some 12)) }))
      1 (record { held = []; todo = locks cast (Operation.transfer 11 10 none) })

abbrev both : System
both = update begun 0 (record { held = 20 ∷ []; todo = 22 ∷ 24 ∷ [] })

begun-Reach : Reach cast begun
begun-Reach =
    Reach.next (Reach.next Reach.start (Step.begin 0 (Operation.transfer 10 11 (some 12))))
      (Step.begin 1 (Operation.transfer 11 10 none))

begun-free : (j : ℕ) → contains 20 (begun j).held ≡ false
begun-free j = ground arith

begun-todo : (begun 0).todo ≡ 20 ∷ 22 ∷ 24 ∷ []
unfolding locks transfer_locks account_ids_to_lock distinct sort remove_id place
begun-todo = refl

both-Reach : Reach cast both
both-Reach = Reach.next begun-Reach (Step.take_lock 0 20 (22 ∷ 24 ∷ []) begun-todo begun-free)

no_deadlock_example : ¬ WaitsFor both 1 1
no_deadlock_example = no_deadlock cast cast-ordered both-Reach 1

-- Seven attempts within a minute.
abbrev tries : List Attempt
tries =
    record { time = 1060; sender = 10; up = true }
    ∷ record { time = 1050; sender = 10; up = true }
    ∷ record { time = 1040; sender = 10; up = true }
    ∷ record { time = 1030; sender = 10; up = true }
    ∷ record { time = 1020; sender = 10; up = true }
    ∷ record { time = 1010; sender = 10; up = true }
    ∷ record { time = 1000; sender = 10; up = true }
    ∷ []

tries-IsChronological : IsChronological tries
tries-IsChronological = ground arith

window_limit_example : length (within 1060 (allowed_times 10 tries)) ≤ max_transfers
window_limit_example = window_limit 10 1060 tries tries-IsChronological

-- A column of whole cents, for thousandths of a cent.
abbrev column : ℤ → ℤ
column (pos n) = pos ((n + 500) / 1000)
column (negsuc n) = neg (pos ((suc n + 500) / 1000))

column-IsColumn : IsColumn column
column-IsColumn n r h = ap pos (ground arith)

-- Half a cent out of 100.00.
transfer-half_cent_example :
    decremented column 10000 500 +ℤ incremented column 20 500 ≡ pos (10000 + 20 + 1)
transfer-half_cent_example =
    transfer-half_cent column 10000 20 0 500 column-IsColumn (ground arith) (ground arith)
