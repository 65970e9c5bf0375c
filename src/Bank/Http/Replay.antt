-- ===== src/Bank/Http/Replay.antt =====
-- A POST that is repeated (Bank/Http).
use hwala.Base.{
  ℕ, arith, ◌+◌, ◌<◌, String, Bool, false, Option, none, some, [], ◌∷◌, ◌≡◌, refl, sym, ap, ◌∙◌,
  Bool-cases, Option-cases, inl, inr, ==-refl,
}
use hwala.Base.Result.{Result, ok, err}
use hwala.Guards.{Identity, api_key_guard, scopes_guard}
use hwala.Idempotency.{
  Cache, Verdict, ttl, Record, redis_get, from_record, acquire, before_handler, after_return,
}
use hwala.Idempotency.Laws.{before_handler-completed}
use hwala.Transfer.Execute.{Env, World}
use hwala.Bank.Requests.{Response, handle, is_refused}
use hwala.Bank.Http.{
  is_valid, request_of, HttpRequest, Times, HttpState, answered, replayed, interceptor_request,
  after_handler_with, on_verdict, with_scopes, with_user, post,
}

module _ (uuid_text : ℕ → String) (uuid_of : String → Option ℕ)
    (hash : (salt : ℕ) (raw_key : String) → String) (compare : (raw_key key_hash : String) → Bool)
    (fingerprint : (path body : String) → ℕ) (show : Response → String) where
  from_record-run :
      (k h : ℕ) (o : Option Record) (key request_hash : ℕ)
      → from_record k h o ≡ Verdict.run key request_hash
      → (k ≡ key) × (request_hash ≡ h)
  from_record-run k h none key request_hash e = ground arith
  from_record-run k h (some (Record.in_progress g)) key request_hash e = ground arith
  from_record-run k h (some (Record.completed g code body)) key request_hash e = ground arith

  acquire-run :
      (now later k h : ℕ) (cache : Cache) (o : Option Record) (key request_hash : ℕ)
      (cache' : Cache)
      → acquire now later k h cache o ≡ (Verdict.run key request_hash, cache')
      → (k ≡ key) × (request_hash ≡ h)
  acquire-run now later k h cache none key request_hash cache' e = ground arith
  acquire-run now later k h cache (some r) key request_hash cache' e =
      from_record-run k h (redis_get later k cache) key request_hash (ap (λ x. x.0) e)

  -- What a POST leaves whose handler has returned.
  abbrev Stored : Times → HttpRequest → Response → HttpState → Type 0
  Stored t r resp st =
      (key : ℕ) × (cache : Cache) × (r.idempotency_key ≡ some key)
      × (st.cache ≡ after_return t.done_at key (fingerprint r.path r.body) 201 (show resp) cache)

  after_handler_with-Stored :
      (t : Times) (key request_hash : ℕ) (served : Response × World) (cache : Cache)
      (resp : Response) (st : HttpState)
      → after_handler_with uuid_text uuid_of hash compare fingerprint show t key request_hash served
          cache
        ≡ (answered resp, st)
      → is_refused resp ≡ false
      → st.cache ≡ after_return t.done_at key request_hash 201 (show resp) cache
  after_handler_with-Stored t key request_hash (served, w) cache resp st h n =
      elim (Bool-cases (is_refused served)) [
        | inl e ↦ let same : served ≡ resp = ground arith in ground arith
        | inr e ↦ let same : served ≡ resp = ground arith in rw (sym same) (ground arith)
      ]

  run_key :
      (now later : ℕ) (r : HttpRequest) (cache cache' : Cache) (key request_hash : ℕ)
      → before_handler fingerprint now later (interceptor_request r) cache
        ≡ (Verdict.run key request_hash, cache')
      → (r.idempotency_key ≡ some key) × (request_hash ≡ fingerprint r.path r.body)
  unfolding before_handler
  run_key now later r cache cache' key request_hash h = elim (Option-cases r.idempotency_key) [
    | inl e ↦ ground arith
    | inr (k, e) ↦
        let (a, b) =
          acquire-run now later k (fingerprint r.path r.body) cache (redis_get now k cache) key
            request_hash cache' (ground arith) in
        (e ∙ ap some a, b)
  ]

  on_verdict-Stored :
      (env : Env) (t : Times) (r : HttpRequest) (user : Identity) (w : World) (v : Verdict)
      (before cache : Cache) (resp : Response) (st : HttpState)
      → before_handler fingerprint t.set_at t.get_at (interceptor_request r) before ≡ (v, cache)
      → on_verdict uuid_text uuid_of hash compare fingerprint show env t user r.dto w (v, cache)
        ≡ (answered resp, st)
      → is_refused resp ≡ false
      → Stored t r resp st
  on_verdict-Stored env t r user w (Verdict.run key request_hash) before cache resp st b h n =
      let (k, same) = run_key t.set_at t.get_at r before cache key request_hash b in
      (
        key,
        cache,
        k,
        elim (Bool-cases (is_valid r.dto)) [
          | inl e ↦ rw (sym same) (
              after_handler_with-Stored t key request_hash
                (handle env (some user.tenant_id) (request_of r.dto) w) cache resp st (ground arith)
                n)
          | inr e ↦ ground arith
        ],
      )
  on_verdict-Stored env t r user w (Verdict.refuse e) before cache resp st b h n = ground arith
  on_verdict-Stored env t r user w (Verdict.replay code body) before cache resp st b h n =
      ground arith
  on_verdict-Stored env t r user w Verdict.pass before cache resp st b h n = ground arith

  with_scopes-Stored :
      (env : Env) (t : Times) (r : HttpRequest) (user : Identity) (checked : Result (Unit {0}))
      (st : HttpState) (resp : Response) (st' : HttpState)
      → with_scopes uuid_text uuid_of hash compare fingerprint show env t r user checked st
        ≡ (answered resp, st')
      → is_refused resp ≡ false
      → Stored t r resp st'
  with_scopes-Stored env t r user (err e) st resp st' h n = ground arith
  with_scopes-Stored env t r user (ok _) st resp st' h n =
      on_verdict-Stored env t r user st.world _ st.cache _ resp st' refl h n

  with_user-Stored :
      (env : Env) (t : Times) (r : HttpRequest) (found : Result Identity) (st : HttpState)
      (resp : Response) (st' : HttpState)
      → with_user uuid_text uuid_of hash compare fingerprint show env t r found st
        ≡ (answered resp, st')
      → is_refused resp ≡ false
      → Stored t r resp st'
  with_user-Stored env t r (err e) st resp st' h n = ground arith
  with_user-Stored env t r (ok user) st resp st' h n =
      with_scopes-Stored env t r user _ st resp st' h n

  -- A POST whose handler has returned is served once: if nothing else comes between, then for 24 hours a POST
  -- with its idempotency key, path and body, whose API key is accepted and has the scope, gets the stored
  -- answer, and changes neither the database nor Redis.
  pub post-replayed :
      (env env' : Env) (t t' : Times) (r r' : HttpRequest) (st st' : HttpState) (resp : Response)
      (user : Identity)
      → post uuid_text uuid_of hash compare fingerprint show env t r st ≡ (answered resp, st')
      → is_refused resp ≡ false
      → r'.idempotency_key ≡ r.idempotency_key
      → r'.path ≡ r.path
      → r'.body ≡ r.body
      → t'.set_at < t.done_at + ttl
      → t'.get_at < t.done_at + ttl
      → api_key_guard uuid_text uuid_of hash compare r'.api_key st'.world.db ≡ ok user
      → scopes_guard (some ("write:transfers" ∷ [])) (some user) ≡ ok tt
      → post uuid_text uuid_of hash compare fingerprint show env' t' r' st'
        ≡ (replayed 201 (show resp), st')
  unfolding post
  post-replayed env env' t t' r r' st st' resp user h n k p b u v g s =
      let (key, cache, kept, stored) = with_user-Stored env t r _ st resp st' h n in
      let again =
        before_handler-completed fingerprint t.done_at key (fingerprint r.path r.body) 201
          (show resp) cache t'.set_at t'.get_at (interceptor_request r') refl (k ∙ kept) u v in
      let verdict : before_handler fingerprint t'.set_at t'.get_at (interceptor_request r')
            st'.cache
          ≡ (Verdict.replay 201 (show resp), st'.cache) =
        (let same : fingerprint r'.path r'.body ≡ fingerprint r.path r.body = rw p (rw b refl) in
          rw stored (again ∙ rw same (rw (==-refl (fingerprint r.path r.body)) refl))) in
      rw g (rw s (rw verdict refl))
