-- ===== src/Webhook/Outbox.antt =====
-- `processPendingOutbox` of src/webhook/outbox.processor.ts. The queue is the list of the jobs that have been
-- added to it. Which calls of the database and of the queue throw is an argument.
use hwala.Base.{
  ℕ, ◌+◌, String, Bool, true, false, Option, none, some, List, [], ◌∷◌, ◌++◌, leb, filter, take,
  order_asc, if◌then◌else◌,
}
use hwala.Base.Result.{Result, ok, err, fault}
use hwala.Base.Table.{Table, lookup, insert}
use hwala.Db.{Db, WebhookOutbox, WebhookFailure, OutboxStatus, Payload, is_pending}

-- A job, with the options that the source passes: five attempts, exponential backoff from 2000 ms.
pub record Job : Type 0 where
  pub name : String
  pub payload : Payload
  pub attempts : ℕ
  pub delay : ℕ

abbrev pub job_of : String → Payload → Job
job_of event_type payload = record {
  name = event_type;
  payload = payload;
  attempts = 5;
  delay = 2000;
}

-- The database, the queue and the flag `isProcessing`.
pub record State : Type 0 where
  pub db : Db
  pub queue : List Job
  pub is_processing : Bool

-- For one entry: which of the calls return, the key and the time of its dead letter, and the message of
-- the error.
pub record Outcome : Type 0 where
  pub mark_ok : Bool
  pub add_ok : Bool
  pub complete_ok : Bool
  pub fail_ok : Bool
  pub letter_ok : Bool
  pub revert_ok : Bool
  pub letter_id : ℕ
  pub now : ℕ
  pub message : String

-- Calls that write and may throw; what was written before a throw stays written.
abbrev pub Act : Type 0
Act = State → Result (Unit {0}) × State

abbrev pub continue : Result (Unit {0}) → Act → Act
continue (ok _) k st = k st
continue (err e) k st = (err e, st)

infixl 5 ◌>>◌
abbrev pub ◌>>◌ : Act → Act → Act
◌>>◌ m k st = let (r, st') = m st in continue r k st'

abbrev pub recovered : Result (Unit {0}) → Act → Act
recovered (ok x) k st = (ok x, st)
recovered (err e) k st = k st

-- `try { m } catch { k }`
abbrev pub try_catch : Act → Act → Act
try_catch m k st = let (r, st') = m st in recovered r k st'

abbrev pub write_row : ℕ → (WebhookOutbox → WebhookOutbox) → Option WebhookOutbox → Act
write_row id f none st = (err (fault "Record to update not found"), st)
write_row id f (some w) st =
    (ok tt, record st { db = record st.db { outbox = insert id (f w) st.db.outbox } })

-- `webhookOutbox.update`
unfoldable pub outbox_update : Bool → String → ℕ → (WebhookOutbox → WebhookOutbox) → Act
outbox_update false message id f st = (err (fault message), st)
outbox_update true message id f st = write_row id f (lookup id st.db.outbox) st

-- `webhookQueue.add`
unfoldable pub enqueue : Bool → String → Job → Act
enqueue false message job st = (err (fault message), st)
enqueue true message job st = (ok tt, record st { queue = st.queue ++ job ∷ [] })

-- `webhookFailure.create`
unfoldable pub letter_create : Bool → String → ℕ → WebhookFailure → Act
letter_create false message id f st = (err (fault message), st)
letter_create true message id f st =
    (ok tt, record st { db = record st.db { failures = insert id f st.db.failures } })

abbrev pub with_status : OutboxStatus → WebhookOutbox → WebhookOutbox
with_status s w = record w { status = s }

abbrev pub max_attempts : ℕ
max_attempts = 5

-- The `try` of the loop: mark as processing, queue, mark as completed.
unfoldable pub attempt : Outcome → ℕ → WebhookOutbox → Act
attempt o id entry =
    outbox_update o.mark_ok o.message id
      (λ w. record w { status = OutboxStatus.processing; attempts = w.attempts + 1 })
    >> enqueue o.add_ok o.message (job_of entry.event_type entry.payload)
    >> outbox_update o.complete_ok o.message id (with_status OutboxStatus.completed)

abbrev pub letter_of : Outcome → WebhookOutbox → WebhookFailure
letter_of o entry = record {
  tenant_id = entry.tenant_id;
  event_type = entry.event_type;
  payload = entry.payload;
  error = o.message;
  retries = entry.attempts + 1;
  failed_at = o.now;
}

-- The `catch` of the loop: the dead letter on the last attempt, else back to pending.
unfoldable pub recover : Outcome → ℕ → WebhookOutbox → Act
recover o id entry =
    if leb max_attempts (entry.attempts + 1)
    then outbox_update o.fail_ok o.message id (with_status OutboxStatus.failed)
      >> letter_create o.letter_ok o.message o.letter_id (letter_of o entry)
    else outbox_update o.revert_ok o.message id (with_status OutboxStatus.pending)

unfoldable pub process_entry : Outcome → ℕ → WebhookOutbox → Act
unfolding attempt recover
process_entry o id entry = try_catch (attempt o id entry) (recover o id entry)

-- The loop over the entries that were fetched.
unfoldable pub process_all : (ℕ → Outcome) → Table WebhookOutbox → Act
process_all outcome [] st = (ok tt, st)
process_all outcome ((id, entry) ∷ rest) st =
    (process_entry (outcome id) id entry >> process_all outcome rest) st

-- The oldest fifty pending entries.
unfoldable pub fetch_pending : Table WebhookOutbox → Table WebhookOutbox
fetch_pending rows = take 50 (
    order_asc (λ (row : ℕ × WebhookOutbox). row.1.created_at)
      (filter (λ (row : ℕ × WebhookOutbox). is_pending row.1.status) rows))

-- `processPendingOutbox`: the outer `catch` logs an error, and `finally` clears the flag. `up` says that
-- the query for the entries returns.
unfoldable pub process_pending_outbox : Bool → (ℕ → Outcome) → State → State
process_pending_outbox up outcome st =
    if st.is_processing
    then st
    else if up
    then record (process_all outcome (fetch_pending st.db.outbox)
        (record st { is_processing = true })).1 { is_processing = false }
    else record st { is_processing = false }
