-- ===== src/Bank/System/Isolation.antt =====
-- No sequence of requests changes what a tenant sees for which none of them is let act (Bank/System).
use hwala.Base.{ℕ, suc, arith, ◌≡◌, ◌≢◌, refl, ap, ◌∙◌, String, Option, some, List, [], ◌∷◌}
use hwala.Base.Result.{Result, ok, err}
use hwala.Db.{Db}
use hwala.Auth.Jwt.{JwtUser, tenant_of_user}
use hwala.Guards.{Identity, tenant_of_key}
use hwala.Webhook.Dlq.{DlqState}
use hwala.Api.{
  Outside, Credentials, ApiEnv, Route, Guard, token_guard, key_guard, no_guard, guard_of, respond,
  behind_token, behind_key, with_scope, answer_guarded, for_anyone, identity, user_of,
}
use hwala.Api.Tenants.{caller}
use hwala.Bank.View.{view, IsSound}
use hwala.Bank.Tenant.{By}
use hwala.Bank.Requests.{Response}
use hwala.Bank.Http.Isolation.{post-Apart}
use hwala.Bank.System.{
  System, Event, posted, called, db_of, actor, NeverActs, serve_event, serve_events,
}
use hwala.Bank.System.Books.{SameBooks-By, for_user-SameBooks, for_anyone-SameBooks, for_tenant-By}

-- The database stays sound, and what every tenant sees but the one that acts stays as it is.
abbrev Apart : Option ℕ → Db → Db → Type 0
Apart actor db db' = IsSound db → IsSound db' × ((u : ℕ) → actor ≢ some u → view u db' ≡ view u db)

Apart-refl : (actor : Option ℕ) (db : Db) → Apart actor db db
Apart-refl actor db sound = (sound, λ u n. refl)

By-Apart : (t : ℕ) (db db' : Db) → By t db db' → Apart (some t) db db'
By-Apart t db db' b sound = (b.sound sound, λ u n. b.others u (λ e. n (ap some e)))

module _ (o : Outside) (env : ApiEnv) (st : DlqState) where
  behind_token-Apart :
      (found : Result JwtUser) (r : Route)
      → Apart (tenant_of_user found) st.db (behind_token o env found r st).1.db
  behind_token-Apart (ok u) r =
      By-Apart u.tenant_id _ _ (SameBooks-By u.tenant_id _ _ (for_user-SameBooks o env st u r))
  behind_token-Apart (err e) r = Apart-refl _ st.db

  with_scope-Apart :
      (i : Identity) (checked : Result (Unit {0})) (r : Route)
      → Apart (some i.tenant_id) st.db (with_scope o env i checked r st).1.db
  with_scope-Apart i (ok _) r = By-Apart i.tenant_id _ _ (for_tenant-By o env st i.tenant_id r)
  with_scope-Apart i (err e) r = Apart-refl _ st.db

  behind_key-Apart :
      (scope : String) (found : Result Identity) (r : Route)
      → Apart (tenant_of_key found) st.db (behind_key o env scope found r st).1.db
  behind_key-Apart scope (ok i) r = with_scope-Apart i _ r
  behind_key-Apart scope (err e) r = Apart-refl _ st.db

  -- An open route writes no books, whoever calls it.
  open_route-Apart : (actor : Option ℕ) (r : Route) → Apart actor st.db (for_anyone o env r st).1.db
  open_route-Apart actor r sound =
      let b = for_anyone-SameBooks o env st r in
      (
        (SameBooks-By 0 _ _ b).sound sound,
        λ u n. (SameBooks-By (suc u) _ _ b).others u (λ e. omega arith),
      )

  answer_guarded-Apart :
      (c : Credentials) (g : Guard) (r : Route)
      → Apart (caller o c g st.db) st.db (answer_guarded o env c g r st).1.db
  unfolding answer_guarded
  answer_guarded-Apart c token_guard r = behind_token-Apart (user_of o c) r
  answer_guarded-Apart c (key_guard scope) r = behind_key-Apart scope (identity o c st.db) r
  answer_guarded-Apart c no_guard r = open_route-Apart _ r

  respond-Apart :
      (c : Credentials) (r : Route)
      → Apart (caller o c (guard_of r) st.db) st.db (respond o env c r st).1.db
  unfolding respond
  respond-Apart c r = answer_guarded-Apart c (guard_of r) r

module _ (o : Outside) (fingerprint : (path body : String) → ℕ) (show : Response → String) where
  serve_event-Apart :
      (e : Event) (s : System)
      → Apart (actor o fingerprint show e s) (db_of s) (db_of (serve_event o fingerprint show e s))
  unfolding serve_event
  serve_event-Apart (posted env t r) s sound =
      let apart = λ (u : ℕ).
        (post-Apart o.uuid_text o.uuid_of o.hash o.compare fingerprint show env t r s.http _ u sound
          refl) in
      ((apart 0).0, λ u n. (apart u).1 n)
  serve_event-Apart (called env c r) s sound =
      respond-Apart o env (record { db = db_of s; queue = s.queue }) c r sound

  -- Tenants are isolated over all controllers: in a database where every key stands once and every ledger entry names an
  -- account of its own tenant, whatever requests are made to the transfer controller and to the others, with
  -- whatever credentials and in whatever order, as long as the guards let none of them act for a tenant, the accounts,
  -- ledger entries and outbox entries of this tenant stay as they are.
  pub serve_events-view :
      (u : ℕ) (events : List Event) (s : System)
      → IsSound (db_of s)
      → NeverActs o fingerprint show u events s
      → view u (db_of (serve_events o fingerprint show events s)) ≡ view u (db_of s)
  unfolding serve_events
  serve_events-view u [] s sound apart = refl
  serve_events-view u (e ∷ events) s sound (n, apart) =
      let (kept, same) = serve_event-Apart e s sound in
      serve_events-view u events (serve_event o fingerprint show e s) kept apart ∙ same u n
