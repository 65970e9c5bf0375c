-- ===== src/Transfer/Capture.antt =====
-- `captureHold` of src/transfer/transfer.service.ts.
use hwala.Base.{ℕ, String, not, Option, none, some, List, [], ◌∷◌, ◌==◌, if◌then◌else◌}
use hwala.Base.Int.{ℤ, pos, neg, ◌-ℤ◌, ltb_ℤ, leb_ℤ}
use hwala.Base.Result.{Result, err, bad_request, not_found}
use hwala.Base.Table.{lookup}
use hwala.Db.{Db, LedgerEntry, LedgerEntryType, Payload}
use hwala.Db.Tx.{
  Tx, ◌>>=◌, ◌>>◌, pure, gets, or_throw, throw_if, account_update, ledger_create, outbox_create,
  transaction, is_client_error,
}
use hwala.Transfer.Execute.{Env, or_text, entry, event}
use hwala.Transfer.Hold.{find_hold, held_amount}

pub record CaptureReceipt : Type 0 where
  pub transaction_id : ℕ
  pub hold_id : ℕ
  pub sender_id : ℕ
  pub receiver_id : ℕ
  pub captured_amount : ℤ
  pub released_remainder : ℤ
  pub status : String

module _ (env : Env) (tenant_id : ℕ) where
  -- The guards on the sender: the hold covers the amount, and so does the account's held balance.
  unfoldable pub check_capture_sender : LedgerEntry → ℤ → Tx (Unit {0})
  check_capture_sender hold_entry amount = do
    row ← gets (λ db. lookup hold_entry.account_id db.accounts)
    sender ← or_throw row (not_found "Sender account not found")
    throw_if (ltb_ℤ (held_amount hold_entry) amount)
        (bad_request "Capture amount exceeds held amount")
    throw_if (ltb_ℤ sender.hold_balance amount) (bad_request "Insufficient held balance to capture")

  unfoldable pub check_capture_receiver : ℕ → Tx (Unit {0})
  check_capture_receiver receiver_id = do
    row ← gets (λ db. lookup receiver_id db.accounts)
    receiver ← or_throw row (not_found "Receiver account not found")
    throw_if (not (receiver.tenant_id == tenant_id))
        (bad_request "Receiver account does not belong to this tenant")

  -- The remainder of a partial capture goes back to the sender's balance.
  unfoldable pub release_remainder : ℕ → ℤ → Tx (Unit {0})
  release_remainder sender_id remainder =
      if ltb_ℤ (pos 0) remainder
      then (do
        account_update sender_id remainder (neg remainder)
        ledger_create (
            entry env tenant_id sender_id remainder (pos 0) LedgerEntryType.release
              "Partial hold release"
            ∷ []))
      else pure tt

  abbrev pub capture_entries : ℕ → ℕ → ℤ → String → List LedgerEntry
  capture_entries sender_id receiver_id amount description =
      entry env tenant_id sender_id (neg amount) (pos 0) LedgerEntryType.transfer
        (or_text description "Capture of hold")
      ∷ entry env tenant_id receiver_id amount (pos 0) LedgerEntryType.transfer
          (or_text description "Capture of hold")
      ∷ []

  unfoldable pub write_capture : ℕ → ℕ → ℕ → ℤ → ℤ → String → Tx CaptureReceipt
  write_capture hold_id sender_id receiver_id amount remainder description = do
    account_update sender_id (pos 0) (neg amount)
    account_update receiver_id amount (pos 0)
    release_remainder sender_id remainder
    ledger_create (capture_entries sender_id receiver_id amount description)
    outbox_create env.outbox_id (
        event env tenant_id "hold.captured" (
          Payload.hold_captured tenant_id env.transaction_id hold_id sender_id receiver_id amount
            remainder env.now))
    pure (record {
      transaction_id = env.transaction_id;
      hold_id = hold_id;
      sender_id = sender_id;
      receiver_id = receiver_id;
      captured_amount = amount;
      released_remainder = remainder;
      status = "CAPTURED";
    })

  unfoldable pub capture_body : ℕ → ℕ → ℤ → String → Tx CaptureReceipt
  capture_body hold_id receiver_id amount description = do
    found ← gets (λ db. find_hold tenant_id hold_id db.ledger)
    hold_entry ← or_throw found (not_found "Hold not found. Verify the holdId and tenant.")
    throw_if (hold_entry.account_id == receiver_id)
        (bad_request "Cannot capture hold to the same account")
    check_capture_sender hold_entry amount
    check_capture_receiver receiver_id
    write_capture hold_id hold_entry.account_id receiver_id amount
        (held_amount hold_entry -ℤ amount) description

-- `captureHold`
unfoldable pub capture_hold : Env → Option ℕ → ℕ → ℕ → ℤ → String → Db → Result CaptureReceipt × Db
capture_hold env none hold_id receiver_id amount description db =
    (err (bad_request "Tenant ID is required"), db)
capture_hold env (some tenant_id) hold_id receiver_id amount description db =
    if leb_ℤ amount (pos 0)
    then (err (bad_request "Capture amount must be greater than zero"), db)
    else transaction is_client_error "Capture operation failed due to a system error"
        (capture_body env tenant_id hold_id receiver_id amount description) db
