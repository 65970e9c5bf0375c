-- ===== src/Idempotency/Commands.antt =====
-- Idempotency: the requests of several clients, interleaved between the Redis commands of
-- `IdempotencyInterceptor.intercept`. Request `i` is a POST with the key `key i` and the fingerprint `hash i`.
use hwala.Base.{ℕ, ◌==◌, String, Option, none, some, List, [], ◌∷◌, if◌then◌else◌}
use hwala.Idempotency.{
  Record, Cache, Verdict, redis_get, redis_set, from_record, after_return, after_throw,
}

-- How far a request is: `waiting` has been told that its key is there, `answered` ends without the handler.
pub data Phase : Type 0 where
  ready waiting running returned threw : Phase
  answered : Verdict → Phase

pub record System : Type 0 where
  pub cache : Cache
  pub phase : ℕ → Phase

-- A command of a request.
pub data Act : Type 0 where
  set_nx get fail : Act
  finish : (code : ℕ) (body : String) → Act

pub record Event : Type 0 where
  pub request : ℕ
  pub now : ℕ
  pub act : Act

abbrev pub update : (ℕ → Phase) → ℕ → Phase → ℕ → Phase
update f i p j = if i == j then p else f j

abbrev pub phase_of : Verdict → Phase
phase_of (Verdict.run _ _) = Phase.running
phase_of v = Phase.answered v

module _ (key hash : ℕ → ℕ) where
  -- `SET … NX`
  abbrev pub after_set_nx : ℕ → ℕ → System → Option Record → System
  after_set_nx i now s none = record {
    cache = redis_set now (key i) (Record.in_progress (hash i)) s.cache;
    phase = update s.phase i Phase.running;
  }
  after_set_nx i now s (some _) = record s { phase = update s.phase i Phase.waiting }

  abbrev pub carried_out : Event → System → Act → Phase → System
  carried_out e s Act.set_nx Phase.ready =
      after_set_nx e.request e.now s (redis_get e.now (key e.request) s.cache)
  carried_out e s Act.get Phase.waiting = record s {
    phase = update s.phase e.request (
        phase_of
          (from_record (key e.request) (hash e.request) (redis_get e.now (key e.request) s.cache)));
  }
  carried_out e s (Act.finish code body) Phase.running = record {
    cache = after_return e.now (key e.request) (hash e.request) code body s.cache;
    phase = update s.phase e.request Phase.returned;
  }
  carried_out e s Act.fail Phase.running = record {
    cache = after_throw (key e.request) s.cache;
    phase = update s.phase e.request Phase.threw;
  }
  carried_out e s _ _ = s

  -- A command that a request does not give in its phase changes nothing.
  unfoldable pub step : Event → System → System
  step e s = carried_out e s e.act (s.phase e.request)

  unfoldable pub run : List Event → System → System
  unfolding step
  run [] s = s
  run (e ∷ events) s = run events (step e s)
