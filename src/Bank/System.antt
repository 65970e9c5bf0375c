-- ===== src/Bank/System.antt =====
-- Requests to all controllers, one after another: POSTs of src/transfer/transfer.controller.ts (Bank/Http) and the routes of the
-- other controllers (Api), on one database.
pub mod Books
pub mod Isolation
use hwala.Base.{ℕ, ◌≢◌, String, Option, none, some, List, [], ◌∷◌}
use hwala.Base.Result.{Result}
use hwala.Db.{Db}
use hwala.Guards.{tenant_of_key}
use hwala.Transfer.Execute.{Env, World}
use hwala.Webhook.Outbox.{Job}
use hwala.Webhook.Dlq.{DlqState}
use hwala.Bank.Requests.{Response}
use hwala.Bank.Http.{HttpRequest, Times, HttpState, post}
use hwala.Api.{Outside, Credentials, ApiEnv, Route, Answer, guard_of, respond, identity}
use hwala.Api.Tenants.{caller}

-- The database with the sorted sets of the velocity checks, the idempotency records, and the queue.
pub record System : Type 0 where
  pub http : HttpState
  pub queue : List Job

abbrev pub db_of : System → Db
db_of s = s.http.world.db

pub data Event : Type 0 where
  posted : Env → Times → HttpRequest → Event
  called : ApiEnv → Credentials → Route → Event

module _ (o : Outside) (fingerprint : (path body : String) → ℕ) (show : Response → String) where
  abbrev pub after_call : System → DlqState → System
  after_call s st = record {
    http = record s.http { world = record s.http.world { db = st.db } };
    queue = st.queue;
  }

  unfoldable pub serve_event : Event → System → System
  serve_event (posted env t r) s = record s {
    http = (post o.uuid_text o.uuid_of o.hash o.compare fingerprint show env t r s.http).1;
  }
  serve_event (called env c r) s =
      after_call s (respond o env c r (record { db = db_of s; queue = s.queue })).1

  unfoldable pub serve_events : List Event → System → System
  serve_events [] s = s
  serve_events (e ∷ events) s = serve_events events (serve_event e s)

  -- The tenant that the guards let an event act for.
  abbrev pub actor : Event → System → Option ℕ
  actor (posted env t r) s =
      tenant_of_key (identity o (record { api_key = r.api_key; token = none }) (db_of s))
  actor (called env c r) s = caller o c (guard_of r) (db_of s)

  -- No event is let act for a tenant, in the state that it meets.
  abbrev pub NeverActs : ℕ → List Event → System → Type 0
  NeverActs u [] s = Unit
  NeverActs u (e ∷ events) s = (actor e s ≢ some u) × NeverActs u events (serve_event e s)
