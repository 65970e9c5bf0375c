-- ===== src/Webhook/Drain/Runs.antt =====
-- Whole runs of the outbox poller (Webhook/Outbox) when its calls return: every event reaches the queue.
use hwala.Base.{
  ℕ, zero, suc, ◌-◌, ◌*◌, ◌≤◌, true, false, some, ◌++◌, ◌≡◌, refl, ◌∙◌, inl, inr, filter, order_asc,
  arith, length, leb, if◌then◌else◌,
}
use hwala.Base.Keys.{
  HasKeys, first_rows-HasKeys, first_rows-AreRows, first_rows-true, count, count-lookup,
  length-take_min, length-order_asc,
}
use hwala.Base.Oldest.{AreFirst, first_rows-AreFirst}
use hwala.Base.Table.{Table, lookup}
use hwala.Db.{WebhookOutbox, is_pending}
use hwala.Webhook.Outbox.{State, Outcome, fetch_pending, process_pending_outbox}
use hwala.Webhook.Drain.{
  IsUp, waiting, pending_count, IsQueued, job, jobs_of, Kept, process_all-Worked,
}

-- A run of the poller in which all calls return.
record Run (st st' : State) : Type 0 where
  pub queued : st'.queue ≡ st.queue ++ jobs_of (fetch_pending st.db.outbox)
  pub fewer : pending_count st' ≡ pending_count st - 50
  pub keys : HasKeys st'.db.outbox
  pub kept : (j : ℕ) (v : WebhookOutbox) → Kept j v st → Kept j v st'
  pub idle : st'.is_processing ≡ false

pub length-fetch_pending :
    (rows : Table WebhookOutbox)
    → length (fetch_pending rows) ≡ (if leb 50 (count waiting rows) then 50 else count waiting rows)
unfolding fetch_pending count
length-fetch_pending rows =
    length-take_min 50 (
      order_asc (λ (row : ℕ × WebhookOutbox). row.1.created_at)
        (filter (λ (row : ℕ × WebhookOutbox). waiting row.1) rows))
    ∙ rw
        (length-order_asc (λ (row : ℕ × WebhookOutbox). row.1.created_at)
          (filter (λ (row : ℕ × WebhookOutbox). waiting row.1) rows))
        refl

process_pending_outbox-Run :
    (outcome : ℕ → Outcome) (st : State)
    → ((id : ℕ) → IsUp (outcome id))
    → HasKeys st.db.outbox
    → st.is_processing ≡ false
    → Run st (process_pending_outbox true outcome st)
unfolding process_pending_outbox fetch_pending
process_pending_outbox-Run outcome st up k idle =
    let key = λ (row : ℕ × WebhookOutbox). row.1.created_at in
    let q = λ (row : ℕ × WebhookOutbox). waiting row.1 in
    let busy : State = record st { is_processing = true } in
    let w =
      process_all-Worked outcome (fetch_pending st.db.outbox) busy up k
        (first_rows-HasKeys key q 50 st.db.outbox k) (first_rows-AreRows key q 50 st.db.outbox k)
        (first_rows-true key q 50 st.db.outbox) in
    rw idle (record {
      queued = w.queued;
      fewer = ground (arith, w.fewer, length-fetch_pending st.db.outbox);
      keys = w.keys;
      kept = λ j v h. w.kept j v h;
      idle = refl;
    })

-- One run after another; the calls of the n-th run come to `outcome n`.
unfoldable pub runs : ℕ → (ℕ → ℕ → Outcome) → State → State
runs zero outcome st = st
runs (suc n) outcome st = runs n (λ i. outcome (suc i)) (process_pending_outbox true (outcome 0) st)

-- When no other run is going on, no key stands twice in the outbox, and all calls return, a run adds the jobs of
-- some rows of the outbox to the queue: these rows are pending, each stands there once, they come in ascending order of
-- their time, no pending row that is left out is older than any of them, and they are fifty, or all that are pending if
-- these are fewer. The run leaves fifty pending entries fewer.
pub process_pending_outbox-queue :
    (outcome : ℕ → Outcome) (st : State)
    → ((id : ℕ) → IsUp (outcome id))
    → HasKeys st.db.outbox
    → st.is_processing ≡ false
    → let st' = process_pending_outbox true outcome st in
      (rows : Table WebhookOutbox) × AreFirst
        (λ (row : ℕ × WebhookOutbox). row.1.created_at)
        (λ (row : ℕ × WebhookOutbox). is_pending row.1.status)
        st.db.outbox
        rows
      × (length rows ≡ (if leb 50 (pending_count st) then 50 else pending_count st))
      × (st'.queue ≡ st.queue ++ jobs_of rows)
      × (pending_count st' ≡ pending_count st - 50)
unfolding fetch_pending
process_pending_outbox-queue outcome st up k idle =
    let run = process_pending_outbox-Run outcome st up k idle in
    (
      fetch_pending st.db.outbox,
      first_rows-AreFirst (λ (row : ℕ × WebhookOutbox). row.1.created_at)
          (λ (row : ℕ × WebhookOutbox). is_pending row.1.status) 50 st.db.outbox k,
      length-fetch_pending st.db.outbox,
      run.queued,
      run.fewer,
    )

runs_drained :
    (n : ℕ) (outcome : ℕ → ℕ → Outcome) (st : State) (id : ℕ) (w : WebhookOutbox)
    → ((i j : ℕ) → IsUp (outcome i j))
    → HasKeys st.db.outbox
    → st.is_processing ≡ false
    → pending_count st ≤ 50 * n
    → Kept id w st
    → (pending_count (runs n outcome st) ≡ 0) × Kept id w (runs n outcome st)
unfolding runs
runs_drained zero outcome st id w up k idle few h = (omega arith, h)
runs_drained (suc n) outcome st id w up k idle few h =
    let run = process_pending_outbox-Run (outcome 0) st (up 0) k idle in
    runs_drained n (λ i. outcome (suc i)) (process_pending_outbox true (outcome 0) st) id w
      (λ i j. up (suc i) j) run.keys run.idle (omega (arith, run.fewer)) (run.kept id w h)

still_pending :
    (st : State) (id : ℕ) (w : WebhookOutbox)
    → pending_count st ≡ 0
    → is_pending w.status ≡ true
    → Kept id w st
    → IsQueued (job w) st.queue
still_pending st id w empty pending (inl found) =
    absurd (omega (arith, count-lookup waiting id w st.db.outbox found pending))
still_pending st id w empty pending (inr q) = q

-- Every event reaches the queue: if no run is going on, no key stands twice in the outbox, and all calls
-- return, then after one run for each fifty pending entries, or after more runs, the job of every entry that
-- was pending has been queued.
pub runs-IsQueued :
    (n : ℕ) (outcome : ℕ → ℕ → Outcome) (st : State) (id : ℕ) (w : WebhookOutbox)
    → ((i j : ℕ) → IsUp (outcome i j))
    → HasKeys st.db.outbox
    → st.is_processing ≡ false
    → pending_count st ≤ 50 * n
    → lookup id st.db.outbox ≡ some w
    → is_pending w.status ≡ true
    → IsQueued (job w) (runs n outcome st).queue
runs-IsQueued n outcome st id w up k idle few found pending =
    let (empty, kept) = runs_drained n outcome st id w up k idle few (inl found) in
    still_pending (runs n outcome st) id w empty pending kept
