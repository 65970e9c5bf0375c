-- ===== src/Webhook/OutboxLaws.antt =====
-- What a run of the outbox poller (Webhook/Outbox) leaves behind.
use hwala.Base.{
  ℕ, ◌+◌, ◌≤◌, ◌<◌, Bool, true, false, Option, none, some, [], ◌∷◌, ◌++◌, ◌==◌, ◌≡◌, refl, ◌∙◌, ◌⊎◌,
  inl, inr, ◌≢◌, Bool-cases, Option-cases, ==-refl, if◌then◌else◌, arith,
}
use hwala.Base.Table.{Table, lookup, insert, lookup-insert}
use hwala.Base.Result.{Result, ok, err}
use hwala.Db.{WebhookOutbox, OutboxStatus}
use hwala.Webhook.Outbox.{
  job_of, State, Outcome, Act, outbox_update, enqueue, letter_create, max_attempts, attempt,
  letter_of, recover, process_entry, process_all, fetch_pending, process_pending_outbox, continue,
}

abbrev pub status_of : ℕ → State → Option OutboxStatus
status_of id st = elim (lookup id st.db.outbox) [ none ↦ none | some w ↦ some w.status ]

pub inserted : {A : Type 0} (id : ℕ) (a : A) (t : Table A) → lookup id (insert id a t) ≡ some a
inserted id a t = lookup-insert id id a t ∙ rw (==-refl id) refl

-- The writes of the `catch` clause return.
pub record CanRecover (o : Outcome) : Type 0 where
  pub fail : o.fail_ok ≡ true
  pub letter : o.letter_ok ≡ true
  pub revert : o.revert_ok ≡ true

-- What becomes of a stored entry when the writes of the `catch` clause return: it is completed and its job was queued once; or it waits for the next run; or
-- its five attempts are over and its dead letter is stored.
pub process_entry-fate :
    (o : Outcome) (id : ℕ) (entry : WebhookOutbox) (st : State)
    → lookup id st.db.outbox ≡ some entry
    → CanRecover o
    → let after = (process_entry o id entry st).1 in
      ((status_of id after ≡ some OutboxStatus.completed)
        × (after.queue ≡ st.queue ++ job_of entry.event_type entry.payload ∷ []))
      ⊎ ((status_of id after ≡ some OutboxStatus.pending) × (entry.attempts + 1 < max_attempts))
      ⊎ ((status_of id after ≡ some OutboxStatus.failed)
          × (max_attempts ≤ entry.attempts + 1)
          × (lookup o.letter_id after.db.failures ≡ some (letter_of o entry)))
unfolding process_entry attempt recover outbox_update enqueue letter_create
process_entry-fate o id entry st p c = grind (arith, inserted)

process_entry-absent :
    (o : Outcome) (id : ℕ) (entry : WebhookOutbox) (st : State)
    → lookup id st.db.outbox ≡ none
    → lookup id (process_entry o id entry st).1.db.outbox ≡ none
unfolding process_entry attempt recover outbox_update enqueue letter_create
process_entry-absent o id entry st p = ground arith

process_entry-present :
    (o : Outcome) (id : ℕ) (entry w : WebhookOutbox) (st : State)
    → lookup id st.db.outbox ≡ some w
    → CanRecover o
    → status_of id (process_entry o id entry st).1 ≢ some OutboxStatus.processing
unfolding process_entry attempt recover outbox_update enqueue letter_create
process_entry-present o id entry w st p c = grind (arith, inserted)

pub process_entry-others :
    (o : Outcome) (id : ℕ) (entry : WebhookOutbox) (st : State) (j : ℕ)
    → id ≢ j
    → lookup j (process_entry o id entry st).1.db.outbox ≡ lookup j st.db.outbox
unfolding process_entry attempt recover outbox_update enqueue letter_create
process_entry-others o id entry st j n = grind (arith, lookup-insert)

-- No entry is left marked as being processed.
abbrev pub NoneProcessing : State → Type 0
NoneProcessing st = (id : ℕ) → status_of id st ≢ some OutboxStatus.processing

process_entry-NoneProcessing :
    (o : Outcome) (id : ℕ) (entry : WebhookOutbox) (st : State)
    → CanRecover o
    → NoneProcessing st
    → NoneProcessing (process_entry o id entry st).1
process_entry-NoneProcessing o id entry st c h j = elim (Bool-cases (id == j)) [
  | inl e ↦ elim (Option-cases (lookup id st.db.outbox)) [
    | inl p ↦ λ q. ground (arith, process_entry-absent o id entry st p)
    | inr (w, p) ↦ λ q. ground (arith, process_entry-present o id entry w st p c)
  ]
  | inr n ↦ λ q. ground (arith, process_entry-others o id entry st j (λ e. ground arith), h j)
]

continued :
    (r : Result Unit) (k : Act) (st : State)
    → NoneProcessing st
    → ((s : State) → NoneProcessing s → NoneProcessing (k s).1)
    → NoneProcessing (continue r k st).1
continued (ok _) k st h f = f st h
continued (err _) k st h f = h

process_all-NoneProcessing :
    (outcome : ℕ → Outcome) (rows : Table WebhookOutbox) (st : State)
    → ((id : ℕ) → CanRecover (outcome id))
    → NoneProcessing st
    → NoneProcessing (process_all outcome rows st).1
unfolding process_all
process_all-NoneProcessing outcome [] st c h = h
process_all-NoneProcessing outcome ((id, entry) ∷ rest) st c h =
    continued _ (process_all outcome rest) _
      (process_entry-NoneProcessing (outcome id) id entry st (c id) h)
      (λ s g. process_all-NoneProcessing outcome rest s c g)

either :
    (b up : Bool) (x y z : State)
    → NoneProcessing x
    → NoneProcessing y
    → NoneProcessing z
    → NoneProcessing (if b then x else if up then y else z)
either true up x y z f g h = f
either false true x y z f g h = g
either false false x y z f g h = h

-- When the writes of the `catch` clause return, a run leaves no entry marked as being processed, if there
-- was none before.
process_pending_outbox-NoneProcessing :
    (up : Bool) (outcome : ℕ → Outcome) (st : State)
    → ((id : ℕ) → CanRecover (outcome id))
    → NoneProcessing st
    → NoneProcessing (process_pending_outbox up outcome st)
unfolding process_pending_outbox
process_pending_outbox-NoneProcessing up outcome st c h =
    either st.is_processing up _ _ _ h
      (process_all-NoneProcessing outcome (fetch_pending st.db.outbox)
        (record st { is_processing = true }) c h)
      h
