-- ===== src/Tests/Events.antt =====
-- The outbox, and interleaved requests with idempotency keys.
use hwala.Base.{
  length, leb, if◌then◌else◌, ◌*◌, All, List, ℕ, arith, ◌-◌, ◌≤◌, ◌≡◌, refl, some, true, false, [],
  ◌∷◌, ◌++◌,
}
use hwala.Base.Int.{pos}
use hwala.Base.Oldest.{AreFirst}
use hwala.Base.Keys.{HasKeys, count}
use hwala.Base.Table.{Table, lookup, insert, erase}
use hwala.Db.{Payload, WebhookOutbox, OutboxStatus, is_pending}
use hwala.Webhook.Outbox.{State, Outcome, process_pending_outbox}
use hwala.Webhook.Drain.{IsUp, jobs_of, job, pending_count, IsQueued}
use hwala.Webhook.Drain.Runs.{runs, process_pending_outbox-queue, runs-IsQueued}
use hwala.Webhook.Settle.{CanRetry, runs-settled}
use hwala.Webhook.Attempts.{AreBounded}
use hwala.Idempotency.{redis_get, redis_set, after_return, after_throw}
use hwala.Idempotency.Commands.{Phase, Act, Event, step, run}
use hwala.Idempotency.Interleavings.{opening, is_called, IsRegular, run-once}
use hwala.Tests.{bank}

abbrev event_at : ℕ → ℕ → WebhookOutbox
event_at created_at attempts = record {
  tenant_id = 1;
  event_type = "hold.created";
  payload = Payload.hold_created 1 500 10 (pos 100) 1000;
  status = OutboxStatus.pending;
  attempts = attempts;
  created_at = created_at;
}

-- Two pending events, the younger first.
abbrev state : State
state = record {
  db = record bank { outbox = (41, event_at 2000 0) ∷ (40, event_at 1000 4) ∷ [] };
  queue = [];
  is_processing = false;
}

abbrev outcome : Outcome
outcome = record {
  mark_ok = true;
  add_ok = true;
  complete_ok = true;
  fail_ok = true;
  letter_ok = true;
  revert_ok = true;
  letter_id = 60;
  now = 3000;
  message = "";
}

outcome-IsUp : IsUp outcome
outcome-IsUp = record { mark = refl; add = refl; complete = refl }

state-HasKeys : HasKeys state.db.outbox
unfolding lookup
state-HasKeys = (refl, (refl, tt))

process_pending_outbox-queue_example :
    let st' = process_pending_outbox true (λ id. outcome) state in
    (rows : Table WebhookOutbox) × AreFirst
      (λ (row : ℕ × WebhookOutbox). row.1.created_at)
      (λ (row : ℕ × WebhookOutbox). is_pending row.1.status)
      state.db.outbox
      rows
    × (length rows ≡ (if leb 50 (pending_count state) then 50 else pending_count state))
    × (st'.queue ≡ [] ++ jobs_of rows)
    × (pending_count st' ≡ pending_count state - 50)
process_pending_outbox-queue_example =
    process_pending_outbox-queue (λ id. outcome) state (λ id. outcome-IsUp) state-HasKeys refl

state-AreBounded : AreBounded state
unfolding lookup
state-AreBounded id w h = ground arith

state-few : pending_count state ≤ 50 * 1
unfolding count
state-few = ground arith

state-row : lookup 41 state.db.outbox ≡ some (event_at 2000 0)
unfolding lookup
state-row = refl

runs-IsQueued_example : IsQueued (job (event_at 2000 0)) (runs 1 (λ i id. outcome) state).queue
runs-IsQueued_example =
    runs-IsQueued 1 (λ i id. outcome) state 41 (event_at 2000 0) (λ i id. outcome-IsUp)
      state-HasKeys refl state-few state-row refl

-- All requests have key 5 and the fingerprint 7.
abbrev key : ℕ → ℕ
key i = 5

abbrev hash : ℕ → ℕ
hash i = 7

abbrev command : ℕ → ℕ → Act → Event
command request now act = record { request = request; now = now; act = act }

-- Request 1 comes while request 0 runs.
abbrev events : List Event
events =
    command 0 100 Act.set_nx
    ∷ command 1 101 Act.set_nx
    ∷ command 1 102 Act.get
    ∷ command 0 103 (Act.finish 201 "done")
    ∷ []

events-IsRegular : All (IsRegular 100) events
events-IsRegular = ground arith

called : is_called ((run key hash events opening).phase 0) ≡ true
unfolding run step redis_get redis_set after_return lookup insert
called = refl

run-once_example : is_called ((run key hash events opening).phase 1) ≡ false
run-once_example = run-once key hash 100 events 0 1 events-IsRegular called refl (λ e. ground arith)

-- The queue takes no job.
abbrev failing : Outcome
failing = record outcome { add_ok = false }

failing-CanRetry : CanRetry failing
failing-CanRetry = record { mark = refl; fail = refl; letter = refl; revert = refl }

state-tries : 5 * pending_count state ≤ 10
unfolding count
state-tries = ground arith

runs-settled_example : pending_count (runs 10 (λ i id. failing) state) ≡ 0
runs-settled_example =
    runs-settled 10 (λ i id. failing) state (λ i id. failing-CanRetry) state-HasKeys
      state-AreBounded refl state-tries

-- Request 0 throws while request 1 waits for the answer to its second command: then requests 1 and 2 both run.
abbrev race : List Event
race =
    command 0 100 Act.set_nx
    ∷ command 1 101 Act.set_nx
    ∷ command 0 102 Act.fail
    ∷ command 1 103 Act.get
    ∷ command 2 104 Act.set_nx
    ∷ []

race_runs_two :
    ((run key hash race opening).phase 1 ≡ Phase.running)
    × ((run key hash race opening).phase 2 ≡ Phase.running)
unfolding run step redis_get redis_set after_throw lookup insert erase
race_runs_two = (refl, refl)
