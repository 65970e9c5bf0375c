-- ===== src/Webhook/Attempts.antt =====
-- How often the outbox poller (Webhook/Outbox) tries an entry, whatever its calls come to.
use hwala.Base.{
  ℕ, Bool, true, false, none, some, [], ◌∷◌, ◌==◌, ◌≡◌, ap, ◌∙◌, arith, All, leb, Bool-cases, inl,
  inr, if◌then◌else◌,
}
use hwala.Base.Keys.{HasKeys, AreRows, first_rows-HasKeys, first_rows-AreRows, first_rows-true}
use hwala.Base.Table.{Table, lookup}
use hwala.Base.Result.{Result, ok, err}
use hwala.Db.{WebhookOutbox, is_pending}
use hwala.Webhook.Outbox.{
  State, Outcome, Act, continue, outbox_update, enqueue, letter_create, attempt, recover,
  process_entry, process_all, fetch_pending, process_pending_outbox,
}
use hwala.Webhook.OutboxLaws.{inserted, process_entry-others}

-- Tried at most five times, and at most four times while it is pending.
abbrev pub is_bounded : WebhookOutbox → Bool
is_bounded w = leb w.attempts (if is_pending w.status then 4 else 5)

abbrev pub AreBounded : State → Type 0
AreBounded st = (id : ℕ) (w : WebhookOutbox) → lookup id st.db.outbox ≡ some w → is_bounded w ≡ true

process_entry-bounded :
    (o : Outcome) (id : ℕ) (entry w : WebhookOutbox) (st : State)
    → lookup id st.db.outbox ≡ some entry
    → is_pending entry.status ≡ true
    → is_bounded entry ≡ true
    → lookup id (process_entry o id entry st).1.db.outbox ≡ some w
    → is_bounded w ≡ true
unfolding process_entry attempt recover outbox_update enqueue letter_create
process_entry-bounded o id entry w st p q b h = grind (arith, inserted)

process_entry-AreBounded :
    (o : Outcome) (id : ℕ) (entry : WebhookOutbox) (st : State)
    → lookup id st.db.outbox ≡ some entry
    → is_pending entry.status ≡ true
    → AreBounded st
    → AreBounded (process_entry o id entry st).1
process_entry-AreBounded o id entry st p q b j w h = elim (Bool-cases (id == j)) [
  | inl e ↦
      let same : id ≡ j = ground arith in
      process_entry-bounded o id entry w st p q (b id entry p)
        (ap (λ k. lookup k (process_entry o id entry st).1.db.outbox) same ∙ h)
  | inr n ↦ b j w (ground (arith, process_entry-others o id entry st j (λ e. ground arith)))
]

-- The rows that are still to come are as they were fetched.
later_rows :
    (o : Outcome) (id : ℕ) (entry : WebhookOutbox) (st : State) (rows : Table WebhookOutbox)
    → lookup id rows ≡ none
    → AreRows st.db.outbox rows
    → AreRows (process_entry o id entry st).1.db.outbox rows
unfolding lookup
later_rows o id entry st [] d r = tt
later_rows o id entry st ((j, w) ∷ rows) d r = (
  process_entry-others o id entry st j (λ e. ground arith) ∙ r.0,
  later_rows o id entry st rows (ground arith) r.1,
)

continued :
    (r : Result Unit) (k : Act) (st : State)
    → AreBounded st
    → AreBounded (k st).1
    → AreBounded (continue r k st).1
continued (ok _) k st h g = g
continued (err _) k st h g = h

process_all-AreBounded :
    (outcome : ℕ → Outcome) (rows : Table WebhookOutbox) (st : State)
    → HasKeys rows
    → AreRows st.db.outbox rows
    → All (λ (row : ℕ × WebhookOutbox). is_pending row.1.status ≡ true) rows
    → AreBounded st
    → AreBounded (process_all outcome rows st).1
unfolding process_all
process_all-AreBounded outcome [] st d r p b = b
process_all-AreBounded outcome ((id, entry) ∷ rows) st d r p b =
    let b' = process_entry-AreBounded (outcome id) id entry st r.0 p.0 b in
    continued _ (process_all outcome rows) _ b' (
      process_all-AreBounded outcome rows (process_entry (outcome id) id entry st).1 d.1
        (later_rows (outcome id) id entry st rows d.0 r.1) p.1 b')

either :
    (b up : Bool) (x y z : State)
    → AreBounded x
    → AreBounded y
    → AreBounded z
    → AreBounded (if b then x else if up then y else z)
either true up x y z f g h = f
either false true x y z f g h = g
either false false x y z f g h = h

-- Whatever the calls of a run come to, no entry is tried more than five times: if no key stands twice in the
-- outbox, and each entry has been tried at most five times, and each pending one at most four times, this
-- holds after the run.
pub process_pending_outbox-AreBounded :
    (up : Bool) (outcome : ℕ → Outcome) (st : State)
    → HasKeys st.db.outbox
    → AreBounded st
    → AreBounded (process_pending_outbox up outcome st)
unfolding process_pending_outbox fetch_pending
process_pending_outbox-AreBounded up outcome st k b =
    let key = λ (row : ℕ × WebhookOutbox). row.1.created_at in
    let q = λ (row : ℕ × WebhookOutbox). is_pending row.1.status in
    either st.is_processing up _ _ _ b
      (process_all-AreBounded outcome (fetch_pending st.db.outbox)
        (record st { is_processing = true }) (first_rows-HasKeys key q 50 st.db.outbox k)
        (first_rows-AreRows key q 50 st.db.outbox k) (first_rows-true key q 50 st.db.outbox) b)
      b
