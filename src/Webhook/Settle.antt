-- ===== src/Webhook/Settle.antt =====
-- The outbox poller (Webhook/Outbox) when the queue fails: it gives up on every event in the end.
use hwala.Base.{
  ℕ, zero, suc, ◌+◌, ◌-◌, ◌*◌, ◌≤◌, true, false, some, [], ◌∷◌, ◌≡◌, refl, ◌∙◌, inl, inr,
  Bool-cases, arith, All, leb, length, if◌then◌else◌,
}
use hwala.Base.Keys.{
  HasKeys, HasKeys-AreRows, insert-HasKeys, AreRows, AreRows-insert, first_rows-HasKeys,
  first_rows-AreRows, first_rows-true, count,
}
use hwala.Base.Table.{Table, lookup, insert, lookup-insert}
use hwala.Base.Result.{ok}
use hwala.Db.{WebhookOutbox, OutboxStatus}
use hwala.Webhook.Outbox.{
  State, Outcome, outbox_update, enqueue, letter_create, attempt, recover, process_entry,
  process_all, fetch_pending, process_pending_outbox, with_status,
}
use hwala.Webhook.Attempts.{AreBounded, is_bounded, process_pending_outbox-AreBounded}
use hwala.Webhook.Drain.{waiting, pending_count}
use hwala.Webhook.Drain.Runs.{runs, length-fetch_pending}

-- The first write of an attempt and the writes of the `catch` clause return; the queue and the last write may fail.
pub record CanRetry (o : Outcome) : Type 0 where
  pub mark : o.mark_ok ≡ true
  pub fail : o.fail_ok ≡ true
  pub letter : o.letter_ok ≡ true
  pub revert : o.revert_ok ≡ true

abbrev tried : WebhookOutbox → WebhookOutbox
tried w = record w { status = OutboxStatus.processing; attempts = w.attempts + 1 }

-- What one entry comes to: it has been tried once more, and has some status.
process_entry-tried :
    (o : Outcome) (id : ℕ) (entry : WebhookOutbox) (st : State)
    → lookup id st.db.outbox ≡ some entry
    → CanRetry o
    → (s : OutboxStatus) × ((process_entry o id entry st).0 ≡ ok tt)
      × ((process_entry o id entry st).1.db.outbox
          ≡ insert id (with_status s (tried entry)) (insert id (tried entry) st.db.outbox))
      × ((process_entry o id entry st).1.is_processing ≡ st.is_processing)
unfolding process_entry attempt recover outbox_update enqueue letter_create
process_entry-tried o id entry st p c =
    let same = lookup-insert id id (tried entry) st.db.outbox in
    elim (Bool-cases o.add_ok) [
      | inr e ↦ elim (Bool-cases (leb 5 (entry.attempts + 1))) [
        | inl f ↦
            (OutboxStatus.failed, ground (arith, same), ground (arith, same), ground (arith, same))
        | inr f ↦
            (OutboxStatus.pending, ground (arith, same), ground (arith, same), ground (arith, same))
      ]
      | inl e ↦ elim (Bool-cases o.complete_ok) [
        | inl g ↦ (
          OutboxStatus.completed,
          ground (arith, same),
          ground (arith, same),
          ground (arith, same),
        )
        | inr g ↦ elim (Bool-cases (leb 5 (entry.attempts + 1))) [
          | inl f ↦ (
            OutboxStatus.failed,
            ground (arith, same),
            ground (arith, same),
            ground (arith, same),
          )
          | inr f ↦ (
            OutboxStatus.pending,
            ground (arith, same),
            ground (arith, same),
            ground (arith, same),
          )
        ]
      ]
    ]

-- The tries that an entry and a table have left.
abbrev tries_left : WebhookOutbox → ℕ
tries_left w = if waiting w then 5 - w.attempts else 0

unfoldable pub work : Table WebhookOutbox → ℕ
work [] = 0
work ((id, w) ∷ rows) = tries_left w + work rows

work-insert :
    (id : ℕ) (w old : WebhookOutbox) (rows : Table WebhookOutbox)
    → lookup id rows ≡ some old
    → work (insert id w rows) + tries_left old ≡ work rows + tries_left w
unfolding work lookup insert
work-insert id w old [] h = cc
work-insert id w old ((j, v) ∷ rows) h = ground (arith, work-insert id w old rows)

tries_left-fewer :
    (s : OutboxStatus) (entry : WebhookOutbox)
    → waiting entry ≡ true
    → is_bounded entry ≡ true
    → tries_left (with_status s (tried entry)) + 1 ≤ tries_left entry
tries_left-fewer s entry p b = ground arith

-- An attempt uses up a try.
process_entry-work :
    (s : OutboxStatus) (id : ℕ) (entry : WebhookOutbox) (rows : Table WebhookOutbox)
    → lookup id rows ≡ some entry
    → waiting entry ≡ true
    → is_bounded entry ≡ true
    → work (insert id (with_status s (tried entry)) (insert id (tried entry) rows)) + 1 ≤ work rows
process_entry-work s id entry rows h p b =
    let first = work-insert id (tried entry) entry rows h in
    let again =
      work-insert id (with_status s (tried entry)) (tried entry) (insert id (tried entry) rows)
        (lookup-insert id id (tried entry) rows ∙ ground arith) in
    let fewer = tries_left-fewer s entry p b in omega (arith, first, again, fewer)

-- What the loop over some rows has done.
record Tried (rows : Table WebhookOutbox) (st st' : State) : Type 0 where
  pub fewer : work st'.db.outbox + length rows ≤ work st.db.outbox
  pub keys : HasKeys st'.db.outbox

process_all-Tried :
    (outcome : ℕ → Outcome) (rows : Table WebhookOutbox) (st : State)
    → ((id : ℕ) → CanRetry (outcome id))
    → HasKeys st.db.outbox
    → HasKeys rows
    → AreRows st.db.outbox rows
    → All (λ (row : ℕ × WebhookOutbox). waiting row.1 ≡ true) rows
    → All (λ (row : ℕ × WebhookOutbox). is_bounded row.1 ≡ true) rows
    → Tried rows st (process_all outcome rows st).1
unfolding process_all
process_all-Tried outcome [] st c k d r p b = record { fewer = omega arith; keys = k }
process_all-Tried outcome ((id, entry) ∷ rows) st c k d r p b =
    let (s, returns, written, _) = process_entry-tried (outcome id) id entry st r.0 (c id) in
    let next = (process_entry (outcome id) id entry st).1 in
    let keys : HasKeys next.db.outbox =
      rw written (insert-HasKeys id _ _ (insert-HasKeys id (tried entry) st.db.outbox k)) in
    let later : AreRows next.db.outbox rows = rw written (
      AreRows-insert id (with_status s (tried entry)) (insert id (tried entry) st.db.outbox) rows
        d.0 (AreRows-insert id (tried entry) st.db.outbox rows d.0 r.1)) in
    let ih = process_all-Tried outcome rows next c keys d.1 later p.1 b.1 in
    let used = process_entry-work s id entry st.db.outbox r.0 p.0 b.0 in
    let used' : work next.db.outbox + 1 ≤ work st.db.outbox = rw written used in
    rw returns (record { fewer = omega (arith, ih.fewer, used'); keys = ih.keys })

-- The rows that a run fetches have tries left.
rows_bounded :
    (st : State) (rows : Table WebhookOutbox)
    → AreBounded st
    → AreRows st.db.outbox rows
    → All (λ (row : ℕ × WebhookOutbox). is_bounded row.1 ≡ true) rows
rows_bounded st [] b r = tt
rows_bounded st ((id, w) ∷ rows) b (r, rs) = (b id w r, rows_bounded st rows b rs)

process_pending_outbox-Tried :
    (outcome : ℕ → Outcome) (st : State)
    → ((id : ℕ) → CanRetry (outcome id))
    → HasKeys st.db.outbox
    → AreBounded st
    → st.is_processing ≡ false
    → Tried (fetch_pending st.db.outbox) st (process_pending_outbox true outcome st)
      × ((process_pending_outbox true outcome st).is_processing ≡ false)
unfolding process_pending_outbox fetch_pending
process_pending_outbox-Tried outcome st c k b idle =
    let key = λ (row : ℕ × WebhookOutbox). row.1.created_at in
    let q = λ (row : ℕ × WebhookOutbox). waiting row.1 in
    let busy : State = record st { is_processing = true } in
    let rows = first_rows-AreRows key q 50 st.db.outbox k in
    let t =
      process_all-Tried outcome (fetch_pending st.db.outbox) busy c k
        (first_rows-HasKeys key q 50 st.db.outbox k) rows (first_rows-true key q 50 st.db.outbox)
        (rows_bounded st (fetch_pending st.db.outbox) b rows) in
    rw idle (record { fewer = t.fewer; keys = t.keys }, refl)

-- The tries that are left are five for each pending entry at most.
work-count : (rows : Table WebhookOutbox) → work rows ≤ 5 * count waiting rows
unfolding work count
work-count [] = omega arith
work-count ((id, w) ∷ rows) = ground (arith, work-count rows)

-- A pending entry has a try left.
count-work :
    (rows : Table WebhookOutbox)
    → All (λ (row : ℕ × WebhookOutbox). is_bounded row.1 ≡ true) rows
    → count waiting rows ≤ work rows
unfolding work count
count-work [] b = omega arith
count-work ((id, w) ∷ rows) (b, bs) = ground (arith, count-work rows bs)

runs_tried :
    (n : ℕ) (outcome : ℕ → ℕ → Outcome) (st : State)
    → ((i j : ℕ) → CanRetry (outcome i j))
    → HasKeys st.db.outbox
    → AreBounded st
    → st.is_processing ≡ false
    → work st.db.outbox ≤ n
    → pending_count (runs n outcome st) ≡ 0
unfolding runs
runs_tried zero outcome st c k b idle few = omega (
  arith,
  count-work st.db.outbox (rows_bounded st st.db.outbox b (HasKeys-AreRows st.db.outbox k)),
)
runs_tried (suc n) outcome st c k b idle few =
    let (t, idle') = process_pending_outbox-Tried (outcome 0) st (c 0) k b idle in
    runs_tried n (λ i. outcome (suc i)) (process_pending_outbox true (outcome 0) st)
      (λ i j. c (suc i) j) t.keys (process_pending_outbox-AreBounded true (outcome 0) st k b) idle'
      (ground (arith, t.fewer, length-fetch_pending st.db.outbox, work-count st.db.outbox))

-- The poller gives up: whether or not the queue takes the jobs and the events can be marked as completed, if
-- the first write of each attempt and the writes of the `catch` clause return, no other run is going on, no key stands
-- twice in the outbox, and each pending entry has been tried at most four times and each other one five times, then after
-- five runs for each pending entry, or after more runs, no entry is pending.
pub runs-settled :
    (n : ℕ) (outcome : ℕ → ℕ → Outcome) (st : State)
    → ((i j : ℕ) → CanRetry (outcome i j))
    → HasKeys st.db.outbox
    → AreBounded st
    → st.is_processing ≡ false
    → 5 * pending_count st ≤ n
    → pending_count (runs n outcome st) ≡ 0
runs-settled n outcome st c k b idle few =
    runs_tried n outcome st c k b idle (omega (arith, work-count st.db.outbox))
