-- ===== src/Transfer/Execute.antt =====
-- `executeTransfer` of src/transfer/transfer.service.ts. The locks are taken inside the transaction and
-- change no row: `Locks` has their order.
use hwala.Base.{ℕ, String, Bool, not, ◌&&◌, Option, none, some, List, [], ◌∷◌, ◌==◌, if◌then◌else◌}
use hwala.Base.Int.{ℤ, pos, ◌+ℤ◌, neg, ltb_ℤ, leb_ℤ}
use hwala.Base.Result.{Result, ok, err, bad_request}
use hwala.Base.Table.{Table, lookup}
use hwala.Db.{
  Db, Account, LedgerEntry, LedgerEntryType, WebhookOutbox, Payload, OutboxStatus, is_revenue,
  platform_revenue,
}
use hwala.Db.Tx.{
  Tx, ◌>>=◌, ◌>>◌, pure, gets, or_throw, throw_if, account_update, account_create, ledger_create,
  outbox_create, transaction, is_bad_request,
}
use hwala.Velocity.{enforce_transfer_velocity}
use hwala.Risk.{RiskEnv, RiskEvaluationResult, evaluate_transaction}
use hwala.Transfer.Fee.{total_fee}

-- What one request draws from its environment: the two optional services, the answer of Redis, the
-- generated keys, the time.
pub record Env : Type 0 where
  pub has_security : Bool
  pub has_risk : Bool
  pub redis_up : Bool
  pub risk : RiskEnv
  pub transaction_id : ℕ
  pub revenue_id : ℕ
  pub outbox_id : ℕ
  pub now : ℕ

-- The database and the sorted sets of the two velocity checks.
pub record World : Type 0 where
  pub db : Db
  pub security_sets : Table (List ℕ)
  pub risk_sets : Table (List ℕ)

pub record Receipt : Type 0 where
  pub transaction_id : ℕ
  pub fee : ℤ
  pub status : String

-- `text || fallback`
abbrev pub or_text : String → String → String
or_text String.[] fallback = fallback
or_text (String.◌∷◌ c s) fallback = String.◌∷◌ c s

-- `findFirst({ where: { tenantId, type: 'PLATFORM_REVENUE' } })`: the first such row in table order.
unfoldable pub find_revenue : ℕ → Table Account → Option ℕ
find_revenue tenant_id [] = none
find_revenue tenant_id ((id, a) ∷ t) =
    let rest = find_revenue tenant_id t in
    if a.tenant_id == tenant_id && is_revenue a.type then some id else rest

-- The new revenue account, of the sender's user and currency.
abbrev pub revenue_row : ℕ → Account → Account
revenue_row tenant_id sender_info = record {
  tenant_id = tenant_id;
  user_id = sender_info.user_id;
  type = platform_revenue;
  currency = or_text sender_info.currency "USD";
  balance = pos 0;
  hold_balance = pos 0;
  version = 1;
}

-- Find or create the platform's revenue account.
unfoldable pub prepare_revenue : ℕ → ℕ → ℕ → Option ℕ → Tx ℕ
prepare_revenue new_id tenant_id sender_id (some id) = pure id
prepare_revenue new_id tenant_id sender_id none = do
  row ← gets (λ db. lookup sender_id db.accounts)
  sender_info ← or_throw row (bad_request "Sender account not found")
  account_create new_id (revenue_row tenant_id sender_info)
  pure new_id

-- … if a fee applies.
unfoldable pub revenue_account : ℕ → ℕ → ℕ → ℤ → Tx (Option ℕ)
unfolding find_revenue prepare_revenue
revenue_account new_id tenant_id sender_id fee =
    if ltb_ℤ (pos 0) fee
    then (do
      found ← gets (λ db. find_revenue tenant_id db.accounts)
      id ← prepare_revenue new_id tenant_id sender_id found
      pure (some id))
    else pure none

-- The sender has to exist, belong to the tenant and cover the amount with its fee.
unfoldable pub check_sender : ℕ → ℕ → ℤ → Tx (Unit {0})
check_sender tenant_id sender_id total_required = do
  row ← gets (λ db. lookup sender_id db.accounts)
  sender ← or_throw row (bad_request "Sender account not found")
  throw_if (not (sender.tenant_id == tenant_id))
      (bad_request "Sender account does not belong to this tenant")
  throw_if (ltb_ℤ sender.balance total_required) (bad_request "Insufficient funds")

unfoldable pub check_receiver : ℕ → ℕ → Tx (Unit {0})
check_receiver tenant_id receiver_id = do
  row ← gets (λ db. lookup receiver_id db.accounts)
  receiver ← or_throw row (bad_request "Receiver account not found")
  throw_if (not (receiver.tenant_id == tenant_id))
      (bad_request "Receiver account does not belong to this tenant")

-- The revenue account that takes the fee: `totalFee > 0 && revenueAccountId`.
abbrev pub fee_target : ℤ → Option ℕ → Option ℕ
fee_target fee revenue = if ltb_ℤ (pos 0) fee then revenue else none

abbrev pub credit_fee : ℤ → Option ℕ → Tx (Unit {0})
credit_fee fee none = pure tt
credit_fee fee (some id) = account_update id fee (pos 0)

unfoldable pub update_balances : ℕ → ℕ → ℤ → ℤ → Option ℕ → Tx (Unit {0})
update_balances sender_id receiver_id amount fee revenue = do
  account_update sender_id (neg (amount +ℤ fee)) (pos 0)
  account_update receiver_id amount (pos 0)
  credit_fee fee revenue

module _ (env : Env) (tenant_id : ℕ) where
  abbrev pub entry : ℕ → ℤ → ℤ → LedgerEntryType → String → LedgerEntry
  entry account_id amount fee_amount type description = record {
    tenant_id = tenant_id;
    transaction_id = env.transaction_id;
    account_id = account_id;
    amount = amount;
    fee_amount = fee_amount;
    type = type;
    description = description;
    created_at = env.now;
  }

  abbrev pub fee_entries : ℕ → ℤ → Option ℕ → List LedgerEntry
  fee_entries sender_id fee none = []
  fee_entries sender_id fee (some id) =
      entry sender_id (neg fee) fee LedgerEntryType.fee "Platform fee for transfer"
      ∷ entry id fee fee LedgerEntryType.fee "Platform fee revenue for transfer"
      ∷ []

  -- `ledgerEntriesData`
  unfoldable pub ledger_entries : ℕ → ℕ → ℤ → ℤ → Option ℕ → String → List LedgerEntry
  ledger_entries sender_id receiver_id amount fee revenue description =
      entry sender_id (neg amount) (pos 0) LedgerEntryType.transfer
        (or_text description "Transfer debit")
      ∷ entry receiver_id amount (pos 0) LedgerEntryType.transfer
          (or_text description "Transfer credit")
      ∷ fee_entries sender_id fee revenue

  abbrev pub event : String → Payload → WebhookOutbox
  event event_type payload = record {
    tenant_id = tenant_id;
    event_type = event_type;
    payload = payload;
    status = OutboxStatus.pending;
    attempts = 0;
    created_at = env.now;
  }

  -- The writes, once the checks have passed.
  unfoldable pub write_transfer : ℕ → ℕ → ℤ → ℤ → Option ℕ → String → Tx Receipt
  write_transfer sender_id receiver_id amount fee revenue description = do
    update_balances sender_id receiver_id amount fee revenue
    ledger_create (ledger_entries sender_id receiver_id amount fee revenue description)
    outbox_create env.outbox_id (
        event "transfer.completed" (
          Payload.transfer_completed tenant_id env.transaction_id sender_id receiver_id amount fee
            env.now))
    pure (record { transaction_id = env.transaction_id; fee = fee; status = "SUCCESS" })

  -- The body of the transaction from the fee on.
  unfoldable pub charged_transfer : ℕ → ℕ → ℤ → String → ℤ → Tx Receipt
  charged_transfer sender_id receiver_id amount description fee = do
    found ← revenue_account env.revenue_id tenant_id sender_id fee
    check_sender tenant_id sender_id (amount +ℤ fee)
    check_receiver tenant_id receiver_id
    write_transfer sender_id receiver_id amount fee (fee_target fee found) description

  -- The body of the transaction.
  unfoldable pub transfer_body : ℕ → ℕ → ℤ → String → Tx Receipt
  transfer_body sender_id receiver_id amount description = do
    row ← gets (λ db. lookup tenant_id db.tenants)
    tenant ← or_throw row (bad_request "Tenant not found")
    charged_transfer sender_id receiver_id amount description (total_fee tenant amount)

abbrev pub system_error : String
system_error = "Transfer failed due to a system error"

-- The transaction, in the world.
abbrev pub in_db : {A : Type 0} → World → Result A × Db → Result A × World
in_db w (r, db) = (r, record w { db = db })

abbrev pub run_transfer : Env → ℕ → ℕ → ℕ → ℤ → String → World → Result Receipt × World
run_transfer env tenant_id sender_id receiver_id amount description w = in_db w (
    transaction is_bad_request system_error
      (transfer_body env tenant_id sender_id receiver_id amount description) w.db)

-- `if (riskResult.blocked) throw …`
abbrev pub after_risk :
    Env → ℕ → ℕ → ℕ → ℤ → String → World → RiskEvaluationResult → Result Receipt × World
after_risk env tenant_id sender_id receiver_id amount description w result =
    if result.blocked
    then (err (bad_request "Transaction blocked by Risk Engine"), w)
    else run_transfer env tenant_id sender_id receiver_id amount description w

abbrev pub assess : Env → ℕ → ℕ → ℕ → ℤ → String → World → Result Receipt × World
assess env tenant_id sender_id receiver_id amount description w =
    if env.has_risk
    then (let (result, db', sets') =
          evaluate_transaction env.risk tenant_id sender_id amount w.db w.risk_sets in
        after_risk env tenant_id sender_id receiver_id amount description
          (record w { db = db'; risk_sets = sets' }) result)
    else run_transfer env tenant_id sender_id receiver_id amount description w

abbrev pub after_velocity :
    Env → ℕ → ℕ → ℕ → ℤ → String → World → Result (Unit {0}) → Result Receipt × World
after_velocity env tenant_id sender_id receiver_id amount description w (err e) = (err e, w)
after_velocity env tenant_id sender_id receiver_id amount description w (ok _) =
    assess env tenant_id sender_id receiver_id amount description w

abbrev pub enforce : Env → ℕ → ℕ → ℕ → ℤ → String → World → Result Receipt × World
enforce env tenant_id sender_id receiver_id amount description w =
    if env.has_security
    then (let (verdict, sets') =
          enforce_transfer_velocity env.redis_up env.now sender_id w.security_sets in
        after_velocity env tenant_id sender_id receiver_id amount description
          (record w { security_sets = sets' }) verdict)
    else assess env tenant_id sender_id receiver_id amount description w

-- `executeTransfer`; a missing tenant id is `none`.
unfoldable pub execute_transfer :
    Env → Option ℕ → ℕ → ℕ → ℤ → String → World → Result Receipt × World
execute_transfer env none sender_id receiver_id amount description w =
    (err (bad_request "Tenant ID is required for transfers"), w)
execute_transfer env (some tenant_id) sender_id receiver_id amount description w =
    if leb_ℤ amount (pos 0)
    then (err (bad_request "Transfer amount must be greater than zero"), w)
    else if sender_id == receiver_id
    then (err (bad_request "Cannot transfer to the same account"), w)
    else enforce env tenant_id sender_id receiver_id amount description w
