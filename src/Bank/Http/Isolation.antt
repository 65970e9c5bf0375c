-- ===== src/Bank/Http/Isolation.antt =====
-- A POST (Bank/Http) and the other tenants.
use hwala.Base.{ℕ, ◌≡◌, ◌≢◌, refl, ap, arith, String, Bool, Option, some, Bool-cases, inl, inr}
use hwala.Base.Result.{Result, ok, err}
use hwala.Guards.{Identity, tenant_of_key, api_key_guard}
use hwala.Idempotency.{Cache, Verdict}
use hwala.Transfer.Execute.{Env, World}
use hwala.Bank.View.{view, IsSound}
use hwala.Bank.Requests.{Response, handle, is_refused}
use hwala.Bank.Requests.Isolation.{handle-Apart}
use hwala.Bank.Http.{
  Dto, is_valid, request_of, HttpRequest, Times, HttpState, after_handler_with, on_verdict,
  with_scopes, post,
}

module _ (uuid_text : ℕ → String) (uuid_of : String → Option ℕ)
    (hash : (salt : ℕ) (raw_key : String) → String) (compare : (raw_key key_hash : String) → Bool)
    (fingerprint : (path body : String) → ℕ) (show : Response → String) where
  -- The callbacks leave the database alone.
  after_handler_db :
      (t : Times) (key request_hash : ℕ) (served : Response × World) (cache : Cache)
      → (after_handler_with uuid_text uuid_of hash compare fingerprint show t key request_hash
          served cache).1.world
        ≡ served.1
  after_handler_db t key request_hash (served, w) cache = elim (Bool-cases (is_refused served)) [
    | inl e ↦ rw e refl
    | inr e ↦ rw e refl
  ]

  -- A database stays sound, and what another tenant sees of it the same.
  abbrev Apart : Identity → ℕ → World → World → Type 0
  Apart user u w w' = IsSound w'.db × (user.tenant_id ≢ u → view u w'.db ≡ view u w.db)

  on_verdict-Apart :
      (env : Env) (t : Times) (user : Identity) (dto : Dto) (w : World) (v : Verdict)
      (cache : Cache) (u : ℕ)
      → IsSound w.db
      → Apart user u w
          (on_verdict uuid_text uuid_of hash compare fingerprint show env t user dto w
            (v, cache)).1.world
  on_verdict-Apart env t user dto w (Verdict.run key request_hash) cache u sound =
      elim (Bool-cases (is_valid dto)) [
        | inl e ↦
            let served = handle env (some user.tenant_id) (request_of dto) w in
            let (kept, same) = handle-Apart env (some user.tenant_id) (request_of dto) w u sound in
            rw e (
              rw (after_handler_db t key request_hash served cache)
                (kept, λ n. same (λ p. n (ground arith))))
        | inr e ↦ rw e (sound, λ n. refl)
      ]
  on_verdict-Apart env t user dto w (Verdict.refuse e) cache u sound = (sound, λ n. refl)
  on_verdict-Apart env t user dto w (Verdict.replay code body) cache u sound = (sound, λ n. refl)
  on_verdict-Apart env t user dto w Verdict.pass cache u sound = (sound, λ n. refl)

  with_scopes-Apart :
      (env : Env) (t : Times) (r : HttpRequest) (user : Identity) (checked : Result (Unit {0}))
      (st : HttpState) (u : ℕ)
      → IsSound st.world.db
      → Apart user u st.world
          (with_scopes uuid_text uuid_of hash compare fingerprint show env t r user checked
            st).1.world
  with_scopes-Apart env t r user (err e) st u sound = (sound, λ n. refl)
  with_scopes-Apart env t r user (ok _) st u sound =
      on_verdict-Apart env t user r.dto st.world _ _ u sound

  -- A POST, whether or not its API key is accepted.
  pub post-Apart :
      (env : Env) (t : Times) (r : HttpRequest) (st : HttpState) (found : Result Identity) (u : ℕ)
      → IsSound st.world.db
      → api_key_guard uuid_text uuid_of hash compare r.api_key st.world.db ≡ found
      → let st' = (post uuid_text uuid_of hash compare fingerprint show env t r st).1 in
        IsSound st'.world.db
        × (tenant_of_key found ≢ some u → view u st'.world.db ≡ view u st.world.db)
  unfolding post
  post-Apart env t r st (err e) u sound g = rw g (sound, λ n. refl)
  post-Apart env t r st (ok user) u sound g =
      let (kept, same) = with_scopes-Apart env t r user _ st u sound in
      rw g (kept, λ n. same (λ p. n (ap some p)))

  -- In a database where every key stands once and every ledger entry names an account of its own tenant, a POST whose
  -- API key is one tenant's leaves the accounts, ledger entries and outbox entries of every other tenant as they are,
  -- whatever its scopes, its idempotency key and its body.
  post-view :
      (env : Env) (t : Times) (r : HttpRequest) (st : HttpState) (user : Identity) (u : ℕ)
      → IsSound st.world.db
      → api_key_guard uuid_text uuid_of hash compare r.api_key st.world.db ≡ ok user
      → user.tenant_id ≢ u
      → view u (post uuid_text uuid_of hash compare fingerprint show env t r st).1.world.db
        ≡ view u st.world.db
  post-view env t r st user u sound g n =
      (post-Apart env t r st (ok user) u sound g).1 (λ e. n (ground arith))
