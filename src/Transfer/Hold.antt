-- ===== src/Transfer/Hold.antt =====
-- `holdFunds` and `releaseHold` of src/transfer/transfer.service.ts.
use hwala.Base.{ℕ, String, not, ◌&&◌, Option, none, some, List, [], ◌∷◌, ◌==◌, if◌then◌else◌, find}
use hwala.Base.Int.{ℤ, pos, neg, abs, ltb_ℤ, leb_ℤ}
use hwala.Base.Result.{Result, err, bad_request, not_found}
use hwala.Base.Table.{lookup}
use hwala.Db.{Db, LedgerEntry, LedgerEntryType, Payload, is_hold}
use hwala.Db.Tx.{
  Tx, ◌>>=◌, ◌>>◌, pure, gets, or_throw, throw_if, account_update, ledger_create, outbox_create,
  transaction, is_client_error,
}
use hwala.Transfer.Execute.{Env, or_text, entry, event}

pub record HoldReceipt : Type 0 where
  pub hold_id : ℕ
  pub account_id : ℕ
  pub amount : ℤ
  pub status : String

pub record ReleaseReceipt : Type 0 where
  pub transaction_id : ℕ
  pub hold_id : ℕ
  pub account_id : ℕ
  pub released_amount : ℤ
  pub status : String

-- `findFirst({ where: { transactionId: holdId, tenantId, type: 'HOLD' } })`
unfoldable pub find_hold : ℕ → ℕ → List LedgerEntry → Option LedgerEntry
find_hold tenant_id hold_id = find (λ (e : LedgerEntry).
    e.transaction_id == hold_id && (e.tenant_id == tenant_id && is_hold e.type))

-- `Math.abs(Number(holdEntry.amount))`
abbrev pub held_amount : LedgerEntry → ℤ
held_amount e = pos (abs e.amount)

module _ (env : Env) (tenant_id : ℕ) where
  -- The guards of `holdFunds` on the account.
  unfoldable pub check_available : ℕ → ℤ → Tx (Unit {0})
  check_available account_id amount = do
    row ← gets (λ db. lookup account_id db.accounts)
    account ← or_throw row (not_found "Account not found")
    throw_if (not (account.tenant_id == tenant_id))
        (bad_request "Account does not belong to this tenant")
    throw_if (ltb_ℤ account.balance amount)
        (bad_request "Insufficient available balance to place hold")

  unfoldable pub write_hold : ℕ → ℤ → String → Tx HoldReceipt
  write_hold account_id amount description = do
    account_update account_id (neg amount) amount
    ledger_create (
        entry env tenant_id account_id (neg amount) (pos 0) LedgerEntryType.hold
          (or_text description "Funds held")
        ∷ [])
    outbox_create env.outbox_id (
        event env tenant_id "hold.created"
          (Payload.hold_created tenant_id env.transaction_id account_id amount env.now))
    pure (record {
      hold_id = env.transaction_id;
      account_id = account_id;
      amount = amount;
      status = "HELD";
    })

  unfoldable pub hold_body : ℕ → ℤ → String → Tx HoldReceipt
  hold_body account_id amount description = do
    check_available account_id amount
    write_hold account_id amount description

  -- The guards of `releaseHold` on the account, after the hold has been found.
  unfoldable pub check_release : LedgerEntry → ℤ → Tx (Unit {0})
  check_release hold_entry amount = do
    row ← gets (λ db. lookup hold_entry.account_id db.accounts)
    account ← or_throw row (not_found "Account not found")
    throw_if (ltb_ℤ (held_amount hold_entry) amount)
        (bad_request "Release amount exceeds held amount")
    throw_if (ltb_ℤ account.hold_balance amount)
        (bad_request "Insufficient held balance to release")

  unfoldable pub write_release : ℕ → ℕ → ℤ → String → Tx ReleaseReceipt
  write_release hold_id account_id amount description = do
    account_update account_id amount (neg amount)
    ledger_create (
        entry env tenant_id account_id amount (pos 0) LedgerEntryType.release
          (or_text description "Release of hold")
        ∷ [])
    outbox_create env.outbox_id (
        event env tenant_id "hold.released"
          (Payload.hold_released tenant_id env.transaction_id hold_id account_id amount env.now))
    pure (record {
      transaction_id = env.transaction_id;
      hold_id = hold_id;
      account_id = account_id;
      released_amount = amount;
      status = "RELEASED";
    })

  unfoldable pub release_body : ℕ → ℤ → String → Tx ReleaseReceipt
  release_body hold_id amount description = do
    found ← gets (λ db. find_hold tenant_id hold_id db.ledger)
    hold_entry ← or_throw found (not_found "Hold not found. Verify the holdId and tenant.")
    check_release hold_entry amount
    write_release hold_id hold_entry.account_id amount description

-- `holdFunds`
unfoldable pub hold_funds : Env → Option ℕ → ℕ → ℤ → String → Db → Result HoldReceipt × Db
hold_funds env none account_id amount description db =
    (err (bad_request "Tenant ID is required"), db)
hold_funds env (some tenant_id) account_id amount description db =
    if leb_ℤ amount (pos 0)
    then (err (bad_request "Hold amount must be greater than zero"), db)
    else transaction is_client_error "Hold operation failed due to a system error"
        (hold_body env tenant_id account_id amount description) db

-- `releaseHold`
unfoldable pub release_hold : Env → Option ℕ → ℕ → ℤ → String → Db → Result ReleaseReceipt × Db
release_hold env none hold_id amount description db =
    (err (bad_request "Tenant ID is required"), db)
release_hold env (some tenant_id) hold_id amount description db =
    if leb_ℤ amount (pos 0)
    then (err (bad_request "Release amount must be greater than zero"), db)
    else transaction is_client_error "Release operation failed due to a system error"
        (release_body env tenant_id hold_id amount description) db
