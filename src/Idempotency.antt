-- ===== src/Idempotency.antt =====
-- `IdempotencyInterceptor.intercept` of src/common/interceptors/idempotency/idempotency.interceptor.ts. A
-- call has two parts: what happens before the handler of the route, and the callbacks after it. Redis is
-- the table of the keys below `idempotency:`, and an entry expires at a second. The fingerprint, SHA-256 of
-- the text of path and body, is a parameter.
pub mod Laws
pub mod Commands
pub mod Interleavings
use hwala.Base.{
  ℕ, ◌+◌, String, Bool, true, false, Option, none, some, List, [], ◌∷◌, ltb, ◌==◌, not,
  if◌then◌else◌,
}
use hwala.Base.Result.{Error, bad_request, conflict, unprocessable}
use hwala.Base.Table.{Table, lookup, insert, erase}

pub data Record : Type 0 where
  in_progress : (request_hash : ℕ) → Record
  completed : (request_hash status_code : ℕ) (body : String) → Record

pub record Entry : Type 0 where
  pub content : Record
  pub expires : ℕ

abbrev pub Cache : Type 0
Cache = Table Entry

-- 24 hours, in seconds.
abbrev pub ttl : ℕ
ttl = 86400

abbrev pub live : ℕ → Option Entry → Option Record
live now none = none
live now (some e) = if ltb now e.expires then some e.content else none

-- `GET`
unfoldable pub redis_get : ℕ → ℕ → Cache → Option Record
redis_get now key cache = live now (lookup key cache)

-- `SET key value EX ttl`
unfoldable pub redis_set : ℕ → ℕ → Record → Cache → Cache
redis_set now key r cache = insert key (record { content = r; expires = now + ttl }) cache

pub record Request : Type 0 where
  pub is_post : Bool
  pub idempotency_key : Option ℕ
  pub path : String
  pub body : String

-- What the part before the handler comes to: the handler runs with no lock of its own, or it runs and the
-- callbacks write the record of a key, or the request is refused, or a stored answer is sent.
pub data Verdict : Type 0 where
  pass : Verdict
  run : (key request_hash : ℕ) → Verdict
  refuse : Error → Verdict
  replay : (status_code : ℕ) (body : String) → Verdict

abbrev pub hash_of : Record → ℕ
hash_of (Record.in_progress h) = h
hash_of (Record.completed h _ _) = h

abbrev pub or_code : ℕ → ℕ → ℕ
or_code code fallback = if code == 0 then fallback else code

abbrev pub answer : Record → Verdict
answer (Record.in_progress _) =
    Verdict.refuse (conflict "A request with this Idempotency-Key is currently processing")
answer (Record.completed _ code body) = Verdict.replay (or_code code 200) body

-- The key is there already.
abbrev pub from_record : ℕ → ℕ → Option Record → Verdict
from_record key hash none = Verdict.run key hash
from_record key hash (some r) =
    if not (hash_of r == hash)
    then Verdict.refuse (unprocessable "Idempotency-Key payload mismatch")
    else answer r

-- `SET … NX` at `now`, and `GET` at `later` if the key is there.
abbrev pub acquire : ℕ → ℕ → ℕ → ℕ → Cache → Option Record → Verdict × Cache
acquire now later key hash cache none =
    (Verdict.run key hash, redis_set now key (Record.in_progress hash) cache)
acquire now later key hash cache (some _) =
    (from_record key hash (redis_get later key cache), cache)

module _ (fingerprint : (path body : String) → ℕ) where
  abbrev pub with_key : ℕ → ℕ → Request → Cache → Option ℕ → Verdict × Cache
  with_key now later q cache none =
      (Verdict.refuse (bad_request "Idempotency-Key header is required for this operation"), cache)
  with_key now later q cache (some key) =
      acquire now later key (fingerprint q.path q.body) cache (redis_get now key cache)

  -- The part before the handler.
  unfoldable pub before_handler : ℕ → ℕ → Request → Cache → Verdict × Cache
  before_handler now later q cache =
      if not q.is_post then (Verdict.pass, cache) else with_key now later q cache q.idempotency_key

-- `tap`: the handler returned, with the code and the body of its answer.
unfoldable pub after_return : ℕ → (key hash code : ℕ) → String → Cache → Cache
after_return now key hash code body cache =
    redis_set now key (Record.completed hash (or_code code 201) body) cache

-- `catchError`: the handler threw.
unfoldable pub after_throw : ℕ → Cache → Cache
after_throw key cache = erase key cache
