-- ===== src/Tests/Services.antt =====
-- The nightly job, the outbox, the dead letters, the deliveries and the idempotency keys of the small bank.
use hwala.Base.{◌+◌, ◌<◌, ◌≤◌, ◌≡◌, ◌⊎◌, ◌↔◌, refl, some, true, false, [], ◌∷◌, ◌++◌}
use mathlib.Core.List.{Mem}
use hwala.Base.Int.{pos, ◌+ℤ◌, ◌-ℤ◌, ◌*ℤ◌, neg}
use hwala.Base.Result.{ok}
use hwala.Base.Table.{lookup, insert}
use hwala.Db.{Db, Account, Payload, WebhookOutbox, WebhookFailure, OutboxStatus, wallet}
use hwala.Db.Tx.{account_update, ledger_create, outbox_create}
use hwala.Db.Measure.{at, balance_of, hold_of, drift, ledger_of, worth, sum_for, sum_of_tenant}
use hwala.Transfer.Hold.{HoldReceipt, hold_funds, hold_body, check_available, write_hold}
use hwala.Accounts.{reconcile_tenant_balance}
use hwala.Accounts.Laws.{hold_funds-unhealthy, hold_funds-reported}
use hwala.Reconciliation.{Report, mismatch, reconcile_ledger}
use hwala.Reconciliation.Laws.{BooksAgree, clean, reconcile_ledger-clean_iff}
use hwala.Webhook.Outbox.{State, Outcome, job_of, letter_of, max_attempts, process_entry}
use hwala.Webhook.OutboxLaws.{CanRecover, status_of, process_entry-fate}
use hwala.Tests.{env, bank, db_of, account}

reconcile_ledger-clean_iff_example :
    (reconcile_ledger true bank ≡ some (clean bank)) ↔ BooksAgree bank
reconcile_ledger-clean_iff_example = reconcile_ledger-clean_iff bank

-- An account that was opened with 20.00 and no entry.
abbrev opened : Db
opened = db_of ((10, account wallet 2000 0) ∷ []) []

abbrev opened_held : Db
opened_held = (hold_funds env (some 1) 10 (pos 500) "deposit" opened).1

opened_hold_runs :
    (receipt : HoldReceipt) × (hold_funds env (some 1) 10 (pos 500) "deposit" opened
      ≡ (ok receipt, opened_held))
unfolding hold_funds hold_body check_available write_hold ◌*ℤ◌ account_update ledger_create
    outbox_create ◌+ℤ◌ ◌-ℤ◌ neg lookup insert
opened_hold_runs = (_, refl)

opened_is_balanced : (reconcile_tenant_balance 1 opened).is_balanced ≡ true
unfolding reconcile_tenant_balance sum_of_tenant
opened_is_balanced = refl

hold_funds-unhealthy_example : (reconcile_tenant_balance 1 opened_held).is_balanced ≡ false
hold_funds-unhealthy_example =
    hold_funds-unhealthy env 1 10 (pos 500) "deposit" opened opened_hold_runs.0 opened_held
      opened_hold_runs.1 opened_is_balanced

abbrev held : Db
held = (hold_funds env (some 1) 10 (pos 5000) "deposit" bank).1

held_runs :
    (receipt : HoldReceipt) × (hold_funds env (some 1) 10 (pos 5000) "deposit" bank
      ≡ (ok receipt, held))
unfolding hold_funds hold_body check_available write_hold ◌*ℤ◌ account_update ledger_create
    outbox_create ◌+ℤ◌ ◌-ℤ◌ neg lookup insert
held_runs = (_, refl)

bank_agrees : drift 10 bank ≡ pos 0
unfolding drift sum_for balance_of hold_of at ◌+ℤ◌ ◌-ℤ◌ neg lookup insert
bank_agrees = refl

held_row : (a : Account) × (lookup 10 held.accounts ≡ some a)
unfolding hold_funds hold_body check_available write_hold ◌*ℤ◌ account_update ledger_create
    outbox_create ◌+ℤ◌ ◌-ℤ◌ neg lookup insert
held_row = (_, refl)

held_report : (report : Report) × (reconcile_ledger true held ≡ some report)
unfolding reconcile_ledger
held_report = (_, refl)

hold_funds-reported_example :
    Mem (mismatch 10 (ledger_of 10 held) (worth held_row.0)) (held_report.0).alarms
hold_funds-reported_example =
    hold_funds-reported env (some 1) 10 (pos 5000) "deposit" bank held_runs.0 held held_row.0
      held_report.0 bank_agrees held_runs.1 held_row.1 held_report.1

abbrev payload : Payload
payload = Payload.hold_created 1 500 10 (pos 5000) 1000

-- An entry that has failed four times, and a queue that is down.
abbrev outbox_entry : WebhookOutbox
outbox_entry = record {
  tenant_id = 1;
  event_type = "hold.created";
  payload = payload;
  status = OutboxStatus.pending;
  attempts = 4;
  created_at = 1000;
}

abbrev outbox_state : State
outbox_state = record {
  db = record bank { outbox = (40, outbox_entry) ∷ [] };
  queue = [];
  is_processing = false;
}

abbrev outcome : Outcome
outcome = record {
  mark_ok = true;
  add_ok = false;
  complete_ok = true;
  fail_ok = true;
  letter_ok = true;
  revert_ok = true;
  letter_id = 60;
  now = 2000;
  message = "queue is down";
}

outcome-CanRecover : CanRecover outcome
outcome-CanRecover = record { fail = refl; letter = refl; revert = refl }

entry_row : lookup 40 outbox_state.db.outbox ≡ some outbox_entry
unfolding lookup
entry_row = refl

process_entry-fate_example :
    let after = (process_entry outcome 40 outbox_entry outbox_state).1 in
    ((status_of 40 after ≡ some OutboxStatus.completed)
      × (after.queue ≡ [] ++ job_of "hold.created" payload ∷ []))
    ⊎ ((status_of 40 after ≡ some OutboxStatus.pending) × (4 + 1 < max_attempts))
    ⊎ ((status_of 40 after ≡ some OutboxStatus.failed)
        × (max_attempts ≤ 4 + 1)
        × (lookup 60 after.db.failures ≡ some (letter_of outcome outbox_entry)))
process_entry-fate_example =
    process_entry-fate outcome 40 outbox_entry outbox_state entry_row outcome-CanRecover

abbrev letter : WebhookFailure
letter = letter_of outcome outbox_entry
