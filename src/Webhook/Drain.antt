-- ===== src/Webhook/Drain.antt =====
-- The outbox poller (Webhook/Outbox) when its calls return: it works the outbox off, oldest events first.
pub mod Runs
use hwala.Base.{
  ℕ, zero, suc, ◌+◌, ◌-◌, ◌*◌, ◌≤◌, ◌<◌, Bool, true, false, Option, none, some, List, [], ◌∷◌, ◌++◌,
  ◌==◌, ◌≡◌, refl, sym, ap, ◌∙◌, ◌≢◌, ◌⊎◌, inl, inr, Bool-cases, filter, order_asc, arith, All,
  length, leb, if◌then◌else◌,
}
use hwala.Base.Keys.{
  HasKeys, insert-HasKeys, AreRows, AreRows-insert, first_rows, first_rows-HasKeys,
  first_rows-AreRows, first_rows-true, count, count-insert, count-lookup, length-take_min,
  length-order_asc,
}
use hwala.Base.Table.{Table, lookup, insert, lookup-insert}
use hwala.Base.Result.{Result, ok, err}
use hwala.Db.{WebhookOutbox, OutboxStatus, is_pending}
use hwala.Webhook.Outbox.{
  Job, job_of, State, Outcome, Act, outbox_update, enqueue, attempt, recover, process_entry,
  process_all, fetch_pending, process_pending_outbox, with_status,
}

-- All calls for an entry return.
pub record IsUp (o : Outcome) : Type 0 where
  pub mark : o.mark_ok ≡ true
  pub add : o.add_ok ≡ true
  pub complete : o.complete_ok ≡ true

abbrev marked : WebhookOutbox → WebhookOutbox
marked w = record w { status = OutboxStatus.processing; attempts = w.attempts + 1 }

-- What one entry comes to.
process_entry-up :
    (o : Outcome) (id : ℕ) (entry : WebhookOutbox) (st : State)
    → lookup id st.db.outbox ≡ some entry
    → IsUp o
    → process_entry o id entry st ≡ (
      ok tt,
      record st {
        db = record st.db {
          outbox =
              insert id
                (with_status OutboxStatus.completed (marked entry))
                (insert id (marked entry) st.db.outbox);
        };
        queue = st.queue ++ job_of entry.event_type entry.payload ∷ [];
      },
    )
unfolding process_entry attempt outbox_update enqueue
process_entry-up o id entry st p up =
    ground (arith, lookup-insert id id (marked entry) st.db.outbox)

abbrev pub waiting : WebhookOutbox → Bool
waiting w = is_pending w.status

abbrev pub pending_count : State → ℕ
pending_count st = count waiting st.db.outbox

-- A job stands in a queue.
abbrev pub IsQueued : Job → List Job → Type 0
IsQueued j [] = ⊥
IsQueued j (x ∷ xs) = (x ≡ j) ⊎ IsQueued j xs

IsQueued-right : (j : Job) (xs ys : List Job) → IsQueued j ys → IsQueued j (xs ++ ys)
IsQueued-right j [] ys h = h
IsQueued-right j (x ∷ xs) ys h = inr (IsQueued-right j xs ys h)

IsQueued-left : (j : Job) (xs ys : List Job) → IsQueued j xs → IsQueued j (xs ++ ys)
IsQueued-left j [] ys h = absurd h
IsQueued-left j (x ∷ xs) ys (inl e) = inl e
IsQueued-left j (x ∷ xs) ys (inr h) = inr (IsQueued-left j xs ys h)

abbrev pub job : WebhookOutbox → Job
job w = job_of w.event_type w.payload

abbrev pub jobs_of : Table WebhookOutbox → List Job
jobs_of [] = []
jobs_of ((id, w) ∷ rows) = job w ∷ jobs_of rows

-- An entry is as it was, or its job is queued.
abbrev pub Kept : ℕ → WebhookOutbox → State → Type 0
Kept id w st = (lookup id st.db.outbox ≡ some w) ⊎ IsQueued (job w) st.queue

-- What the loop over some rows has done.
pub record Worked (rows : Table WebhookOutbox) (st st' : State) : Type 0 where
  pub queued : st'.queue ≡ st.queue ++ jobs_of rows
  pub fewer : pending_count st' + length rows ≡ pending_count st
  pub keys : HasKeys st'.db.outbox
  pub kept : (j : ℕ) (v : WebhookOutbox) → Kept j v st → Kept j v st'

append_assoc : {A : Type 0} (xs ys zs : List A) → (xs ++ ys) ++ zs ≡ xs ++ (ys ++ zs)
append_assoc [] ys zs = refl
append_assoc (x ∷ xs) ys zs = ap (λ l. x ∷ l) (append_assoc xs ys zs)

append_nil : {A : Type 0} (xs : List A) → xs ++ [] ≡ xs
append_nil [] = refl
append_nil (x ∷ xs) = ap (λ l. x ∷ l) (append_nil xs)

step-Kept :
    (id : ℕ) (entry : WebhookOutbox) (j : ℕ) (v : WebhookOutbox) (st : State)
    → HasKeys st.db.outbox
    → lookup id st.db.outbox ≡ some entry
    → Kept j v st
    → Kept j v (record st {
      db = record st.db {
        outbox =
            insert id
              (with_status OutboxStatus.completed (marked entry))
              (insert id (marked entry) st.db.outbox);
      };
      queue = st.queue ++ job entry ∷ [];
    })
step-Kept id entry j v st k e (inr q) = inr (IsQueued-left (job v) st.queue _ q)
step-Kept id entry j v st k e (inl h) = elim (Bool-cases (id == j)) [
  | inl p ↦
      let same : entry ≡ v = ground arith in
      inr (IsQueued-right (job v) st.queue (job entry ∷ []) (inl (ap job same)))
  | inr n ↦ inl (
      ground (
        arith,
        lookup-insert id j (with_status OutboxStatus.completed (marked entry))
            (insert id (marked entry) st.db.outbox),
        lookup-insert id j (marked entry) st.db.outbox,
      ))
]

pub process_all-Worked :
    (outcome : ℕ → Outcome) (rows : Table WebhookOutbox) (st : State)
    → ((id : ℕ) → IsUp (outcome id))
    → HasKeys st.db.outbox
    → HasKeys rows
    → AreRows st.db.outbox rows
    → All (λ (row : ℕ × WebhookOutbox). waiting row.1 ≡ true) rows
    → Worked rows st (process_all outcome rows st).1
unfolding process_all
process_all-Worked outcome [] st up k d r p = record {
  queued = sym (append_nil st.queue);
  fewer = omega arith;
  keys = k;
  kept = λ j v h. h;
}
process_all-Worked outcome ((id, entry) ∷ rows) st up k d r p =
    rw (process_entry-up (outcome id) id entry st r.0 (up id)) (
      let marked' = insert id (marked entry) st.db.outbox in
      let done = insert id (with_status OutboxStatus.completed (marked entry)) marked' in
      let k' = insert-HasKeys id _ marked' (insert-HasKeys id (marked entry) st.db.outbox k) in
      let ih =
        process_all-Worked outcome rows
          (record st {
            db = record st.db { outbox = done };
            queue = st.queue ++ job_of entry.event_type entry.payload ∷ [];
          })
          up k' d.1
          (AreRows-insert id (with_status OutboxStatus.completed (marked entry)) marked' rows d.0
            (AreRows-insert id (marked entry) st.db.outbox rows d.0 r.1))
          p.1 in
      record {
        queued = ih.queued ∙ append_assoc st.queue _ (jobs_of rows);
        fewer = ground (
          arith,
          ih.fewer,
          count-insert waiting id (with_status OutboxStatus.completed (marked entry)) (marked entry)
              marked',
          count-insert waiting id (marked entry) entry st.db.outbox,
          lookup-insert id id (marked entry) st.db.outbox,
        );
        keys = ih.keys;
        kept = λ j v h. ih.kept j v (step-Kept id entry j v st k r.0 h);
      })
