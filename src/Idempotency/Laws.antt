-- ===== src/Idempotency/Laws.antt =====
-- What a second request with the same key comes to (Idempotency).
use hwala.Base.{ℕ, ◌+◌, ◌<◌, String, true, none, some, ◌==◌, ◌≡◌, arith, if◌then◌else◌}
use hwala.Base.Table.{lookup-insert, lookup-erase}
use hwala.Base.Result.{conflict, unprocessable}
use hwala.Idempotency.{
  Record, Cache, Request, Verdict, ttl, redis_get, redis_set, before_handler, after_return,
  after_throw, or_code,
}

module _ (fingerprint : (path body : String) → ℕ) where
  -- While the handler of a request runs, within 24 hours of its lock, every other request with its key is
  -- refused: with 409 if the fingerprints agree, else with 422. The store stays as it is.
  pub before_handler-in_progress :
      (now later key : ℕ) (q : Request) (cache : Cache) (t u : ℕ) (q' : Request)
      → redis_get now key cache ≡ none
      → q.is_post ≡ true
      → q.idempotency_key ≡ some key
      → q'.is_post ≡ true
      → q'.idempotency_key ≡ some key
      → t < now + ttl
      → u < now + ttl
      → let held = (before_handler fingerprint now later q cache).1 in
        before_handler fingerprint t u q' held ≡ (
          (if fingerprint q.path q.body == fingerprint q'.path q'.body
              then Verdict.refuse
                  (conflict "A request with this Idempotency-Key is currently processing")
              else Verdict.refuse (unprocessable "Idempotency-Key payload mismatch")),
          held,
        )
  unfolding before_handler redis_get redis_set
  before_handler-in_progress now later key q cache t u q' e p k p' k' h g = ground (
    arith,
    lookup-insert key key
        (record { content = Record.in_progress (fingerprint q.path q.body); expires = now + ttl })
        cache,
  )

  -- After the handler has returned at `done`, a request with its key gets, for 24 hours, the stored code
  -- and body without running the handler if the fingerprints agree, and 422 else.
  pub before_handler-completed :
      (done key hash code : ℕ) (body : String) (cache : Cache) (t u : ℕ) (q : Request)
      → q.is_post ≡ true
      → q.idempotency_key ≡ some key
      → t < done + ttl
      → u < done + ttl
      → before_handler fingerprint t u q (after_return done key hash code body cache) ≡ (
        (if hash == fingerprint q.path q.body
            then Verdict.replay (or_code code 201) body
            else Verdict.refuse (unprocessable "Idempotency-Key payload mismatch")),
        after_return done key hash code body cache,
      )
  unfolding before_handler redis_get redis_set after_return
  before_handler-completed done key hash code body cache t u q p k h g = ground (
    arith,
    lookup-insert key key
        (record { content = Record.completed hash (or_code code 201) body; expires = done + ttl })
        cache,
  )

  -- After the handler has thrown, a request with its key takes the lock and runs the handler.
  pub before_handler-retry :
      (key : ℕ) (cache : Cache) (t u : ℕ) (q : Request)
      → q.is_post ≡ true
      → q.idempotency_key ≡ some key
      → (before_handler fingerprint t u q (after_throw key cache)).0
        ≡ Verdict.run key (fingerprint q.path q.body)
  unfolding before_handler redis_get after_throw
  before_handler-retry key cache t u q p k = ground (arith, lookup-erase key key cache)
