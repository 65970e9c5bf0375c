-- ===== src/Bank/Http.antt =====
-- src/transfer/transfer.controller.ts: a POST request on its way through the API key guard and the scopes guard (Guards),
-- the idempotency interceptor (Idempotency), the validation of its DTO (src/transfer/dto) and the transfer service.
pub mod Replay
pub mod Isolation
use Prim.Native.String
use hwala.Base.{
  ℕ, String, Bool, true, false, not, ◌&&◌, Option, none, some, List, [], ◌∷◌, if◌then◌else◌,
}
use hwala.Base.Int.{ℤ, pos, ltb_ℤ}
use hwala.Base.Result.{Result, Error, ok, err, bad_request}
use hwala.Db.{Db}
use hwala.Guards.{Identity, api_key_guard, scopes_guard}
use hwala.Idempotency.{Cache, Verdict, before_handler, after_return, after_throw}
use hwala.Transfer.Execute.{Env, World}
use hwala.Bank.Requests.{Request, Response, handle, is_refused}

-- The body of a request; a UUID is a number, and a description that is left out is `none`.
pub data Dto : Type 0 where
  create_transfer_dto : (sender_id receiver_id : ℕ) (amount : ℤ) (description : String) → Dto
  hold_funds_dto : (account_id : ℕ) (amount : ℤ) (description : Option String) → Dto
  capture_hold_dto : (hold_id receiver_id : ℕ) (amount : ℤ) (description : Option String) → Dto
  release_hold_dto : (hold_id : ℕ) (amount : ℤ) (description : Option String) → Dto

abbrev pub is_positive : ℤ → Bool
is_positive amount = ltb_ℤ (pos 0) amount

abbrev pub is_blank_text : String → Bool
is_blank_text String.[] = true
is_blank_text (String.◌∷◌ c s) = false

-- The constraints of the DTO classes, for amounts of whole cents; the classes let fractions of a cent through as well.
unfoldable pub is_valid : Dto → Bool
is_valid (create_transfer_dto _ _ amount description) =
    is_positive amount && not (is_blank_text description)
is_valid (hold_funds_dto _ amount _) = is_positive amount
is_valid (capture_hold_dto _ _ amount _) = is_positive amount
is_valid (release_hold_dto _ amount _) = is_positive amount

-- `description || fallback`
abbrev pub or_words : Option String → String → String
or_words none fallback = fallback
or_words (some String.[]) fallback = fallback
or_words (some (String.◌∷◌ c s)) fallback = String.◌∷◌ c s

-- The call of the service.
unfoldable pub request_of : Dto → Request
request_of (create_transfer_dto s r amount description) = Request.transfer s r amount description
request_of (hold_funds_dto id amount description) =
    Request.hold id amount (or_words description "Funds held")
request_of (capture_hold_dto id r amount description) =
    Request.capture id r amount (or_words description "Hold captured")
request_of (release_hold_dto id amount description) =
    Request.release id amount (or_words description "Hold released")

-- `body` is the text that the fingerprint is made of, `dto` what the framework reads from it.
pub record HttpRequest : Type 0 where
  pub api_key : Option String
  pub idempotency_key : Option ℕ
  pub path : String
  pub body : String
  pub dto : Dto

-- The seconds at which the commands of the interceptor reach Redis, before the handler and after it.
pub record Times : Type 0 where
  pub set_at : ℕ
  pub get_at : ℕ
  pub done_at : ℕ

pub record HttpState : Type 0 where
  pub world : World
  pub cache : Cache

pub data HttpResponse : Type 0 where
  refused : Error → HttpResponse
  replayed : (status_code : ℕ) (body : String) → HttpResponse
  answered : Response → HttpResponse

abbrev pub interceptor_request : HttpRequest → hwala.Idempotency.Request
interceptor_request r = record {
  is_post = true;
  idempotency_key = r.idempotency_key;
  path = r.path;
  body = r.body;
}

-- What the requests take from outside: UUID texts, bcrypt, SHA-256, and the JSON text of an answer.
module _ (uuid_text : ℕ → String) (uuid_of : String → Option ℕ)
    (hash : (salt : ℕ) (raw_key : String) → String) (compare : (raw_key key_hash : String) → Bool)
    (fingerprint : (path body : String) → ℕ) (show : Response → String) where
  -- The callbacks of the interceptor; a POST is answered with 201.
  abbrev pub after_handler :
      Times → (key request_hash : ℕ) → Response → World → Cache → HttpResponse × HttpState
  after_handler t key request_hash r w cache =
      if is_refused r then (answered r, record { world = w; cache = after_throw key cache }) else (
        answered r,
        record { world = w; cache = after_return t.done_at key request_hash 201 (show r) cache },
      )

  abbrev pub after_handler_with :
      Times → (key request_hash : ℕ) → Response × World → Cache → HttpResponse × HttpState
  after_handler_with t key request_hash (r, w) cache = after_handler t key request_hash r w cache

  abbrev pub on_verdict :
      Env → Times → Identity → Dto → World → Verdict × Cache → HttpResponse × HttpState
  on_verdict env t user dto w (Verdict.run key request_hash, cache) =
      if is_valid dto
      then after_handler_with t key request_hash
          (handle env (some user.tenant_id) (request_of dto) w) cache
      else (
        refused (bad_request "Bad Request Exception"),
        record { world = w; cache = after_throw key cache },
      )
  on_verdict env t user dto w (Verdict.refuse e, cache) =
      (refused e, record { world = w; cache = cache })
  on_verdict env t user dto w (Verdict.replay code body, cache) =
      (replayed code body, record { world = w; cache = cache })
  -- Not reached: the request is a POST.
  on_verdict env t user dto w (Verdict.pass, cache) =
      (refused (bad_request "Bad Request Exception"), record { world = w; cache = cache })

  abbrev pub with_scopes :
      Env
      → Times
      → HttpRequest
      → Identity
      → Result (Unit {0})
      → HttpState
      → HttpResponse × HttpState
  with_scopes env t r user (err e) st = (refused e, st)
  with_scopes env t r user (ok _) st =
      on_verdict env t user r.dto st.world
        (before_handler fingerprint t.set_at t.get_at (interceptor_request r) st.cache)

  abbrev pub with_user :
      Env → Times → HttpRequest → Result Identity → HttpState → HttpResponse × HttpState
  with_user env t r (err e) st = (refused e, st)
  with_user env t r (ok user) st =
      with_scopes env t r user (scopes_guard (some ("write:transfers" ∷ [])) (some user)) st

  -- A POST to a route of the controller.
  unfoldable pub post : Env → Times → HttpRequest → HttpState → HttpResponse × HttpState
  post env t r st =
      with_user env t r (api_key_guard uuid_text uuid_of hash compare r.api_key st.world.db) st
