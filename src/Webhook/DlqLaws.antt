-- ===== src/Webhook/DlqLaws.antt =====
-- The dead letters' controller (Webhook/Dlq): a retry, and the bounds of a page.
use hwala.Base.{
  ℕ, ◌==◌, if◌then◌else◌, zero, suc, ◌≤◌, Option, none, some, List, [], ◌∷◌, ◌++◌, ◌≡◌, ◌⊎◌, inl,
  inr, Bool-cases, arith, take, length,
}
use hwala.Base.Table.{lookup, lookup-erase}
use hwala.Base.Result.{ok, err, Error, bad_request}
use hwala.Db.{Db, WebhookFailure}
use hwala.Webhook.Outbox.{job_of}
use hwala.Webhook.Dlq.{
  DlqState, RetryOutcome, retry_failed_webhook, page_of, limit_of, get_failed_webhooks,
}

-- A retry of a stored letter that returns adds its job at the end of the queue once and removes this
-- letter and no other; a retry that throws leaves the database as it was.
retry_failed_webhook-keeps :
    (o : RetryOutcome) (id : ℕ) (f : WebhookFailure) (st : DlqState)
    → lookup id st.db.failures ≡ some f
    → let (r, after) = retry_failed_webhook o id st in
      ((r ≡ ok id)
        × (after.queue ≡ st.queue ++ job_of f.event_type f.payload ∷ [])
        × ((j : ℕ)
            → lookup j after.db.failures ≡ (if id == j then none else lookup j st.db.failures)))
      ⊎ ((e : Error) × (r ≡ err e) × (after.db ≡ st.db))
unfolding retry_failed_webhook
retry_failed_webhook-keeps o id f st p = elim (Bool-cases o.add_ok) [
  | inl a ↦ elim (Bool-cases o.delete_ok) [
    | inl d ↦
        inl (ground arith, ground arith, λ j. ground (arith, lookup-erase id j st.db.failures))
    | inr d ↦ inr (bad_request "Failed to re-enqueue webhook", ground arith, ground arith)
  ]
  | inr a ↦ inr (bad_request "Failed to re-enqueue webhook", ground arith, ground arith)
]

length-take : {A : Type 0} (n : ℕ) (xs : List A) → length (take n xs) ≤ n
length-take zero xs = ground arith
length-take (suc n) [] = ground arith
length-take (suc n) (x ∷ xs) = ground (arith, length-take n xs)

-- A page holds at most its limit of rows, and the limit is from 1 to 100, whatever the query says.
pub get_failed_webhooks_bounds :
    (tenant page limit : Option ℕ) (db : Db)
    → let p = get_failed_webhooks tenant page limit db in
      (length p.rows ≤ p.limit) × (1 ≤ p.limit) × (p.limit ≤ 100) × (1 ≤ p.page)
unfolding get_failed_webhooks page_of limit_of
get_failed_webhooks_bounds tenant page limit db =
    (length-take _ _, ground arith, ground arith, ground arith)
