-- ===== src/Velocity.antt =====
-- The sliding window of src/security/security.service.ts and of the Redis path of
-- `getAccountTransferVelocity` in src/risk/risk.service.ts. A sorted set is the list of its scores, which
-- are times in ms; its members are unique by their random suffix. The expiry of a key after 60 s
-- removes only scores that the next call would drop, so it is left out.
pub mod Window
use hwala.Base.{
  ℕ, suc, ◌+◌, Bool, true, false, Option, none, some, List, [], ◌∷◌, ltb, leb, length, filter,
  if◌then◌else◌,
}
use hwala.Base.Result.{Result, ok, err, too_many_requests, fault}
use hwala.Base.Table.{Table, lookup, insert}

abbrev pub window_ms : ℕ
window_ms = 60000

abbrev pub max_transfers : ℕ
max_transfers = 5

-- The sorted set of a key; a missing key is the empty set.
abbrev pub scores_of : Option (List ℕ) → List ℕ
scores_of none = []
scores_of (some s) = s

-- `zremrangebyscore key 0 (now - 60000)`
abbrev pub remaining : ℕ → List ℕ → List ℕ
remaining now s = filter (λ t. ltb now (t + window_ms)) s

-- The pipeline: drop old events, count the rest, log this attempt; no other command comes between its commands, and all
-- of them succeed.
unfoldable pub pipeline : ℕ → ℕ → Table (List ℕ) → ℕ × Table (List ℕ)
pipeline now id sets =
    let s = remaining now (scores_of (lookup id sets)) in (length s, insert id (now ∷ s) sets)

-- `enforceTransferVelocity`; `up` says that Redis answers the pipeline.
unfoldable pub enforce_transfer_velocity :
    Bool → ℕ → ℕ → Table (List ℕ) → Result (Unit {0}) × Table (List ℕ)
unfolding pipeline
enforce_transfer_velocity false now sender_id sets =
    (err (fault "Redis pipeline execution failed"), sets)
enforce_transfer_velocity true now sender_id sets =
    let (current_count, sets') = pipeline now sender_id sets in
    (
      if leb max_transfers current_count
          then err (
              too_many_requests
                "Fraud Prevention: Too many transfers initiated recently. Please wait a minute.")
          else ok tt,
      sets',
    )
