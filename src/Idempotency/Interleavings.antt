-- ===== src/Idempotency/Interleavings.antt =====
-- What the interleaved requests of Idempotency/Commands come to.
use hwala.Base.{
  Bool-cases, ℕ, ◌+◌, ◌<◌, ◌≤◌, ◌≡◌, ◌≢◌, refl, arith, Bool, true, false, Option, none, some, List,
  [], ◌∷◌, All, Option-cases, inl, inr,
}
use hwala.Base.Table.{lookup, insert, lookup-insert}
use hwala.Idempotency.{Record, Entry, ttl, redis_get, redis_set, from_record, after_return}
use hwala.Idempotency.Commands.{
  Phase, System, Act, Event, update, phase_of, after_set_nx, carried_out, step, run,
}

-- The handler of a request has been called.
abbrev pub is_called : Phase → Bool
is_called Phase.running = true
is_called Phase.returned = true
is_called Phase.threw = true
is_called _ = false

-- An event at a time from `from` on, before the first lock can expire, that is no failure of a handler.
abbrev pub IsRegular : ℕ → Event → Type 0
IsRegular from e = (from ≤ e.now) × (e.now < from + ttl) × (e.act ≢ Act.fail)

-- Nobody has sent a command yet.
abbrev pub opening : System
opening = record { cache = []; phase = λ _. Phase.ready }

abbrev is_ready : Phase → Bool
is_ready Phase.ready = true
is_ready _ = false

called-ready : (p : Phase) → is_called p ≡ true → is_ready p ≡ false
called-ready Phase.ready h = ground arith
called-ready Phase.waiting h = refl
called-ready Phase.running h = refl
called-ready Phase.returned h = refl
called-ready Phase.threw h = refl
called-ready (Phase.answered v) h = refl

from_record-called :
    (k h : ℕ) (r : Record) → is_called (phase_of (from_record k h (some r))) ≡ false
from_record-called k h r = ground arith

module _ (key hash : ℕ → ℕ) (from : ℕ) where
  record IsLocked (s : System) : Type 0 where
    pub fresh : (k : ℕ) (e : Entry) → lookup k s.cache ≡ some e → from + ttl ≤ e.expires
    pub kept : (i : ℕ) → is_ready (s.phase i) ≡ false → lookup (key i) s.cache ≢ none
    pub once :
        (i j : ℕ)
        → is_called (s.phase i) ≡ true
        → is_called (s.phase j) ≡ true
        → key i ≡ key j
        → i ≡ j

  -- A request writes its key.
  write-IsLocked :
      (i : ℕ) (p : Phase) (entry : Entry) (s : System)
      → IsLocked s
      → from + ttl ≤ entry.expires
      → ((j : ℕ) → is_called (s.phase j) ≡ true → key j ≡ key i → j ≡ i)
      → IsLocked (record { cache = insert (key i) entry s.cache; phase = update s.phase i p })
  write-IsLocked i p entry s l x sole = record {
    fresh = λ k e h. ground (arith, lookup-insert (key i) k entry s.cache, l.fresh k e);
    kept = λ j h g. ground (arith, lookup-insert (key i) (key j) entry s.cache, l.kept j);
    once = λ j k h g q. ground (arith, l.once j k, sole j, sole k);
  }

  -- A request whose key is there goes on without the handler.
  stay-IsLocked :
      (i : ℕ) (p : Phase) (s : System)
      → IsLocked s
      → lookup (key i) s.cache ≢ none
      → is_called p ≡ false
      → IsLocked (record s { phase = update s.phase i p })
  stay-IsLocked i p s l there idle = record {
    fresh = l.fresh;
    kept = λ j h g. ground (arith, l.kept j);
    once = λ j k h g q. ground (arith, l.once j k);
  }

  -- Every entry is still alive.
  alive :
      (now k : ℕ) (s : System)
      → IsLocked s
      → now < from + ttl
      → redis_get now k s.cache ≡ none
      → lookup k s.cache ≡ none
  unfolding redis_get
  alive now k s l u h = elim (Option-cases (lookup k s.cache)) [
    | inl n ↦ n
    | inr (e, p) ↦ ground (arith, l.fresh k e p)
  ]

  is_there :
      (now k : ℕ) (s : System) (r : Record)
      → redis_get now k s.cache ≡ some r
      → lookup k s.cache ≢ none
  unfolding redis_get
  is_there now k s r h n = ground arith

  after_set_nx-IsLocked :
      (i now : ℕ) (s : System) (o : Option Record)
      → redis_get now (key i) s.cache ≡ o
      → from ≤ now
      → now < from + ttl
      → IsLocked s
      → IsLocked (after_set_nx key hash i now s o)
  unfolding redis_set
  after_set_nx-IsLocked i now s none e t u l =
      let free = alive now (key i) s l u e in
      write-IsLocked i Phase.running _ s l (omega arith)
        (λ j c q. ground (arith, free, l.kept j, called-ready (s.phase j) c))
  after_set_nx-IsLocked i now s (some r) e t u l =
      stay-IsLocked i Phase.waiting s l (is_there now (key i) s r e) refl

  carried_out-IsLocked :
      (e : Event) (s : System) (a : Act) (p : Phase)
      → s.phase e.request ≡ p
      → from ≤ e.now
      → e.now < from + ttl
      → a ≢ Act.fail
      → IsLocked s
      → IsLocked (carried_out key hash e s a p)
  unfolding after_return redis_set
  carried_out-IsLocked e s Act.set_nx Phase.ready q t u n l =
      after_set_nx-IsLocked e.request e.now s _ refl t u l
  carried_out-IsLocked e s Act.get Phase.waiting q t u n l =
      elim (Option-cases (redis_get e.now (key e.request) s.cache)) [
        | inl o ↦ elim (l.kept e.request (rw q refl) (alive e.now (key e.request) s l u o)) [ ]
        | inr (r, o) ↦ rw o (
            stay-IsLocked e.request _ s l (is_there e.now (key e.request) s r o)
              (from_record-called (key e.request) (hash e.request) r))
      ]
  carried_out-IsLocked e s (Act.finish code body) Phase.running q t u n l =
      write-IsLocked e.request Phase.returned _ s l (omega arith)
        (λ j c k. l.once j e.request c (rw q refl) k)
  carried_out-IsLocked e s Act.fail p q t u n l = elim (n refl) [ ]
  carried_out-IsLocked e s _ _ q t u n l = l

  step-IsLocked :
      (e : Event) (s : System) → IsRegular from e → IsLocked s → IsLocked (step key hash e s)
  unfolding step
  step-IsLocked e s (t, u, n) l = carried_out-IsLocked e s e.act (s.phase e.request) refl t u n l

  run-IsLocked :
      (events : List Event) (s : System)
      → All (IsRegular from) events
      → IsLocked s
      → IsLocked (run key hash events s)
  unfolding run
  run-IsLocked [] s r l = l
  run-IsLocked (e ∷ events) s r l =
      run-IsLocked events (step key hash e s) r.1 (step-IsLocked e s r.0 l)

opening-IsLocked : (key hash : ℕ → ℕ) (from : ℕ) → IsLocked key hash from opening
unfolding lookup
opening-IsLocked key hash from = record {
  fresh = λ k e h. ground arith;
  kept = λ i h. ground arith;
  once = λ i j h. ground arith;
}

-- Starting with no key stored, and however the commands of any requests interleave within 24 hours, if no
-- handler throws: when the handler has been called for one request, it has not been called for any other
-- request with the same key.
pub run-once :
    (key hash : ℕ → ℕ) (from : ℕ) (events : List Event) (i j : ℕ)
    → All (IsRegular from) events
    → is_called ((run key hash events opening).phase i) ≡ true
    → key i ≡ key j
    → i ≢ j
    → is_called ((run key hash events opening).phase j) ≡ false
run-once key hash from events i j r c k n =
    elim (Bool-cases (is_called ((run key hash events opening).phase j))) [
      | inl d ↦
          elim (n (
            (run-IsLocked key hash from events opening r (opening-IsLocked key hash from)).once i j
              c d k)) [ ]
      | inr d ↦ d
    ]
