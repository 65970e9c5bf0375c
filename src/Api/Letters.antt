-- ===== src/Api/Letters.antt =====
-- What somebody without credentials can do to the dead letters (src/webhook/webhook-dlq.controller.ts).
use hwala.Base.{
  ℕ, arith, ◌≡◌, ◌≤◌, refl, sym, ap, ◌∙◌, Bool, true, false, ◌||◌, none, some, List, [], ◌∷◌, ◌==◌,
  filter, length, order_desc, if◌then◌else◌, Option-cases, Bool-cases, inl, inr,
}
use hwala.Base.Keys.{HasKeys}
use hwala.Base.Pages.{lookup-order_desc, length-order_desc, take_all}
use hwala.Base.Table.{Table, lookup, lookup-erase}
use hwala.Db.{WebhookFailure}
use hwala.Webhook.Dlq.{
  DlqState, in_scope, get_failed_webhooks, dismiss_failed_webhook, page_of, limit_of,
}
use hwala.Api.{Outside, ApiEnv, Route, Answer, respond, answer_guarded, guard_of, for_anyone}
use hwala.Api.Takeover.{nobody}

abbrev pub ids_of : {V : Type 0} → Table V → List ℕ
ids_of [] = []
ids_of ((id, v) ∷ rows) = id ∷ ids_of rows

-- The letters that an answer lists.
abbrev pub listed : Answer → List ℕ
listed (Answer.as_failures page) = ids_of page.rows
listed _ = []

abbrev includes : List ℕ → ℕ → Bool
includes [] k = false
includes (id ∷ ids) k = id == k || includes ids k

-- One DELETE for each id, without credentials.
unfoldable pub purge : Outside → ApiEnv → List ℕ → DlqState → DlqState
purge o env [] st = st
purge o env (id ∷ ids) st = purge o env ids (respond o env nobody (Route.delete_failure id) st).1

includes-ids_of :
    {V : Type 0} (k : ℕ) (rows : Table V) → includes (ids_of rows) k ≡ false → lookup k rows ≡ none
unfolding lookup
includes-ids_of k [] h = refl
includes-ids_of k ((id, v) ∷ rows) h = ground (arith, includes-ids_of k rows)

no_rows : {V : Type 0} (rows : Table V) → ((k : ℕ) → lookup k rows ≡ none) → rows ≡ []
unfolding lookup
no_rows [] h = refl
no_rows ((k, v) ∷ rows) h = absurd (ground (arith, h k))

module _ (o : Outside) (env : ApiEnv) (deletes : env.delete_ok ≡ true) where
  respond-lookup :
      (id k : ℕ) (st : DlqState)
      → lookup k (respond o env nobody (Route.delete_failure id) st).1.db.failures
        ≡ (if id == k then none else lookup k st.db.failures)
  unfolding respond answer_guarded guard_of for_anyone dismiss_failed_webhook
  respond-lookup id k st = elim (Option-cases (lookup id st.db.failures)) [
    | inl e ↦ rw e (elim (Bool-cases (id == k)) [
      | inl same ↦ rw same (let i : id ≡ k = ground arith in rw (sym i) e)
      | inr other ↦ rw other refl
    ])
    | inr (_, e) ↦ rw e (rw deletes (lookup-erase id k st.db.failures))
  ]

  purge-lookup :
      (k : ℕ) (ids : List ℕ) (st : DlqState)
      → lookup k (purge o env ids st).db.failures
        ≡ (if includes ids k then none else lookup k st.db.failures)
  unfolding purge
  purge-lookup k [] st = refl
  purge-lookup k (id ∷ ids) st =
      let next = (respond o env nobody (Route.delete_failure id) st).1 in
      ground (arith, purge-lookup k ids next, respond-lookup id k st)

every_row :
    (rows : Table WebhookFailure)
    → filter (λ (row : ℕ × WebhookFailure). in_scope none row.1) rows ≡ rows
every_row [] = refl
every_row (row ∷ rows) = ap (λ rest. row ∷ rest) (every_row rows)

-- A hundred letters at most fit the first page.
listed_all :
    (o : Outside) (env : ApiEnv) (st : DlqState)
    → length st.db.failures ≤ 100
    → listed (respond o env nobody (Route.get_failures none (some 1) (some 100)) st).0
      ≡ ids_of (order_desc (λ (row : ℕ × WebhookFailure). row.1.failed_at) st.db.failures)
unfolding respond answer_guarded guard_of for_anyone get_failed_webhooks page_of limit_of
listed_all o env st few = rw (every_row st.db.failures) (
    ap ids_of (
      take_all 100 (order_desc (λ (row : ℕ × WebhookFailure). row.1.failed_at) st.db.failures) (
        rw (length-order_desc (λ (row : ℕ × WebhookFailure). row.1.failed_at) st.db.failures) few)))

-- The dead letters have no guard: somebody without credentials who lists them and deletes what is listed
-- empties the table, for all tenants, if it has at most a hundred letters, under different keys, and the
-- deletions of the database return.
pub purge-listed :
    (o : Outside) (env : ApiEnv) (st : DlqState)
    → env.delete_ok ≡ true
    → HasKeys st.db.failures
    → length st.db.failures ≤ 100
    → let ids = listed (respond o env nobody (Route.get_failures none (some 1) (some 100)) st).0 in
      (purge o env ids st).db.failures ≡ []
purge-listed o env st deletes h few =
    let key = λ (row : ℕ × WebhookFailure). row.1.failed_at in
    let rows = order_desc key st.db.failures in
    rw (listed_all o env st few) (
      no_rows _ (λ k.
        purge-lookup o env deletes k (ids_of rows) st
        ∙ elim (Bool-cases (includes (ids_of rows) k)) [
          | inl e ↦ rw e refl
          | inr e ↦ rw e (sym (lookup-order_desc key k st.db.failures h) ∙ includes-ids_of k rows e)
        ]))
