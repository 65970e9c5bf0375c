-- ===== src/Tests/Http.antt =====
-- A hold over HTTP, and its repetition.
use text.Mathlib.Text
use hwala.Base.{ℕ, arith, ◌≡◌, ◌≢◌, refl, ap, String, Bool, true, Option, none, some, List, [], ◌∷◌}
use hwala.Base.Int.{pos, ◌+ℤ◌, ◌-ℤ◌, ◌*ℤ◌, neg}
use hwala.Base.Result.{ok}
use hwala.Base.Table.{lookup, insert}
use hwala.Db.{Db, api_user}
use hwala.Db.Tx.{account_update, ledger_create, outbox_create}
use hwala.ApiKeys.{split, validate_api_key}
use hwala.Guards.{tenant_of_key, Identity, api_key_guard, scopes_guard}
use hwala.Idempotency.{before_handler, after_return, redis_get, redis_set}
use hwala.Transfer.Hold.{HoldReceipt, hold_funds, hold_body, check_available, write_hold}
use hwala.Bank.Requests.{Response}
use hwala.Bank.Http.{Dto, HttpRequest, Times, HttpState, HttpResponse, is_valid, request_of, post}
use hwala.Auth.{Profile}
use hwala.Api.{Outside, ApiEnv, Route, guard_of}
use hwala.Bank.System.{System, Event, NeverActs, serve_events}
use hwala.Bank.System.Isolation.{serve_events-view}
use hwala.Bank.View.{owner, view, IsSound}
use hwala.Bank.Http.Replay.{post-replayed}
use hwala.Tests.{env, bank, world}

-- One key, with its text for a hash.
abbrev uuid_text : ℕ → String
uuid_text n = "3"

abbrev uuid_of : String → Option ℕ
uuid_of s = some 3

abbrev hash : ℕ → String → String
hash salt text = text

abbrev compare : String → String → Bool
compare text stored = Text.◌==◌ text stored

abbrev fingerprint : String → String → ℕ
fingerprint path body = 7

abbrev show : Response → String
show r = "{}"

abbrev keyed_bank : Db
keyed_bank = record bank {
  api_keys =
      (
        3,
        record {
          tenant_id = 1;
          name = "shop";
          key_hash = "hwl_3_abc";
          scopes = "write:transfers" ∷ [];
        },
      )
      ∷ [];
}

abbrev request : HttpRequest
request = record {
  api_key = some "hwl_3_abc";
  idempotency_key = some 5;
  path = "/api/v1/transfers/holds";
  body = "{}";
  dto = Dto.hold_funds_dto 10 (pos 5000) none;
}

abbrev at : ℕ → Times
at n = record { set_at = n; get_at = n; done_at = n }

abbrev start : HttpState
start = record { world = world keyed_bank; cache = [] }

abbrev after_hold : HttpState
after_hold = (post uuid_text uuid_of hash compare fingerprint show env (at 100) request start).1

posted :
    (receipt : HoldReceipt) × (post uuid_text uuid_of hash compare fingerprint show env
        (at 100)
        request
        start
      ≡ (HttpResponse.answered (Response.held (ok receipt)), after_hold))
unfolding post api_key_guard validate_api_key split lookup scopes_guard before_handler redis_get
    redis_set after_return is_valid request_of hold_funds hold_body check_available write_hold ◌+ℤ◌
    ◌-ℤ◌ ◌*ℤ◌ account_update neg insert ledger_create outbox_create
posted = (_, refl)

abbrev user : Identity
user = record {
  tenant_id = 1;
  role = some api_user;
  api_key_id = some 3;
  scopes = some ("write:transfers" ∷ []);
}

user_found :
    api_key_guard uuid_text uuid_of hash compare (some "hwl_3_abc") after_hold.world.db ≡ ok user
unfolding post api_key_guard validate_api_key split lookup scopes_guard before_handler redis_get
    redis_set after_return is_valid request_of hold_funds hold_body check_available write_hold ◌+ℤ◌
    ◌-ℤ◌ ◌*ℤ◌ account_update neg insert ledger_create outbox_create
user_found = refl

may_write : scopes_guard (some ("write:transfers" ∷ [])) (some user) ≡ ok tt
unfolding scopes_guard
may_write = refl

post-replayed_example :
    post uuid_text uuid_of hash compare fingerprint show env (at 200) request after_hold
    ≡ (HttpResponse.replayed 201 "{}", after_hold)
post-replayed_example =
    post-replayed uuid_text uuid_of hash compare fingerprint show env env (at 100) (at 200) request
      request start after_hold (Response.held (ok posted.0)) user posted.1 refl refl refl refl
      (ground arith) (ground arith) user_found may_write

keyed_bank-IsSound : IsSound keyed_bank
unfolding lookup owner
keyed_bank-IsSound = record { keys = (refl, (refl, (refl, tt))); owned = (refl, tt) }

user_known : api_key_guard uuid_text uuid_of hash compare (some "hwl_3_abc") keyed_bank ≡ ok user
unfolding api_key_guard validate_api_key split lookup
user_known = refl

-- The hold, and then a registration by somebody without credentials.
abbrev outside : Outside
outside = record {
  uuid_text = uuid_text;
  uuid_of = uuid_of;
  hash = hash;
  compare = compare;
  sign = λ (p : Profile). p.email;
  verify = λ token. none;
  is_email = λ text. true;
  whitelisted = λ decorated sent. true;
}

abbrev api_env : ApiEnv
api_env = record {
  user_id = 70;
  salt = 1;
  account_id = 15;
  key = record {
    new_id = 4;
    secret = "abc";
    salt = 1;
    has_audit = true;
    audit_id = 90;
    now = 1000;
  };
  retry = record { add_ok = true; delete_ok = true };
  delete_ok = true;
}

abbrev events : List Event
events =
    Event.posted env (at 100) request
    ∷ Event.called api_env (record { api_key = none; token = none })
        (Route.post_register ("email" ∷ [])
          (record { tenant_id = 1; email = "eve@else.example"; password = "secret"; role = none }))
    ∷ []

abbrev system : System
system = record { http = start; queue = [] }

not_second : (o : Option ℕ) → o ≡ some 1 → o ≢ some 2
not_second o e f = ground arith

events-NeverActs : NeverActs outside fingerprint show 2 events system
unfolding guard_of
events-NeverActs = (not_second _ (ap tenant_of_key user_known), ((λ e. ground arith), tt))

serve_events-view_example :
    view 2 (serve_events outside fingerprint show events system).http.world.db ≡ view 2 keyed_bank
serve_events-view_example =
    serve_events-view outside fingerprint show 2 events system keyed_bank-IsSound events-NeverActs
