-- ===== src/Velocity/Window.antt =====
-- How many transfers the sliding window of src/security/security.service.ts lets through.
use hwala.Base.{
  ℕ, ◌+◌, ◌≤◌, ◌<◌, ◌≡◌, refl, Bool, true, false, ◌&&◌, List, [], ◌∷◌, All, arith, ltb, leb, ◌==◌,
  length, filter, if◌then◌else◌,
}
use hwala.Base.Result.{Result, ok, err}
use hwala.Base.Table.{Table, lookup, lookup-insert}
use hwala.Velocity.{window_ms, max_transfers, scores_of, remaining, enforce_transfer_velocity}

-- A call of `enforceTransferVelocity`.
pub record Attempt : Type 0 where
  pub time : ℕ
  pub sender : ℕ
  pub up : Bool

abbrev pub is_ok : Result (Unit {0}) → Bool
is_ok (ok _) = true
is_ok (err _) = false

-- The sorted sets after some attempts, the latest first.
unfoldable pub sets_after : List Attempt → Table (List ℕ)
sets_after [] = []
sets_after (a ∷ earlier) = (enforce_transfer_velocity a.up a.time a.sender (sets_after earlier)).1

-- The times at which transfers of a sender have been let through.
unfoldable pub allowed_times : ℕ → List Attempt → List ℕ
allowed_times k [] = []
allowed_times k (a ∷ earlier) =
    let rest = allowed_times k earlier in
    if a.sender == k
      && is_ok (enforce_transfer_velocity a.up a.time a.sender (sets_after earlier)).0
    then a.time ∷ rest
    else rest

-- The times come in order.
abbrev pub IsChronological : List Attempt → Type 0
IsChronological [] = Unit
IsChronological (a ∷ earlier) =
    All (λ (b : Attempt). b.time ≤ a.time) earlier × IsChronological earlier

-- The times in the minute that ends at `t`.
abbrev pub within : ℕ → List ℕ → List ℕ
within t us = filter (λ u. leb u t && ltb t (u + window_ms)) us

-- The scores of a sender.
abbrev scores : ℕ → List Attempt → List ℕ
scores k attempts = scores_of (lookup k (sets_after attempts))

pub remaining-remaining :
    (t x : ℕ) (s : List ℕ) → x ≤ t → remaining t (remaining x s) ≡ remaining t s
remaining-remaining t x [] h = refl
remaining-remaining t x (u ∷ s) h = ground (arith, remaining-remaining t x s h)

-- What a call does to the sorted set of a sender, and when it lets the transfer through.
enforce-scores :
    (k : ℕ) (up : Bool) (now id : ℕ) (sets : Table (List ℕ))
    → scores_of (lookup k (enforce_transfer_velocity up now id sets).1) ≡ (
        if id == k && up
        then now ∷ remaining now (scores_of (lookup k sets))
        else scores_of (lookup k sets))
unfolding enforce_transfer_velocity
enforce-scores k false now id sets = ground arith
enforce-scores k true now id sets =
    ground (arith, lookup-insert id k (now ∷ remaining now (scores_of (lookup id sets))) sets)

pub enforce-ok :
    (up : Bool) (now id : ℕ) (sets : Table (List ℕ))
    → is_ok (enforce_transfer_velocity up now id sets).0 ≡ true
    → (up ≡ true) × (length (remaining now (scores_of (lookup id sets))) < max_transfers)
unfolding enforce_transfer_velocity
enforce-ok false now id sets h = cc
enforce-ok true now id sets h = (refl, ground arith)

-- The times that a minute sees are among the scores that the next attempt counts.
within-le-remaining :
    (k t : ℕ) (as' : List Attempt)
    → All (λ (a : Attempt). a.time ≤ t) as'
    → IsChronological as'
    → length (within t (allowed_times k as')) ≤ length (remaining t (scores k as'))
unfolding allowed_times sets_after
within-le-remaining k t [] h c = omega arith
within-le-remaining k t (a ∷ earlier) (h, hs) (c, cs) =
    let ih = within-le-remaining k t earlier hs cs in
    let e = enforce-scores k a.up a.time a.sender (sets_after earlier) in
    let ok_up = enforce-ok a.up a.time a.sender (sets_after earlier) in
    let drop = remaining-remaining t a.time (scores k earlier) h in
    rw e (ground (arith, ih, ok_up, drop))

within_earlier :
    (t u : ℕ) (us : List ℕ)
    → u ≤ t
    → All (λ v. v ≤ u) us
    → ltb t (u + window_ms) ≡ true
    → length (within t us) ≤ length (within u us)
within_earlier t u [] h hs w = omega arith
within_earlier t u (v ∷ us) h (p, hs) w = ground (arith, within_earlier t u us h hs w)

All-if :
    (P : ℕ → Type 0) (b : Bool) (x : ℕ) (xs : List ℕ)
    → P x
    → All P xs
    → All P (if b then x ∷ xs else xs)
All-if P true x xs p h = (p, h)
All-if P false x xs p h = h

allowed-All :
    (P : ℕ → Type 0) (k : ℕ) (as' : List Attempt)
    → All (λ (a : Attempt). P a.time) as'
    → All P (allowed_times k as')
unfolding allowed_times
allowed-All P k [] h = tt
allowed-All P k (a ∷ earlier) (p, h) =
    All-if P _ a.time (allowed_times k earlier) p (allowed-All P k earlier h)

-- Whatever attempts come in, in order of time, from whichever senders, whether Redis answers them or
-- not: in no minute are more than five transfers of one sender let through.
pub window_limit :
    (k t : ℕ) (as' : List Attempt)
    → IsChronological as'
    → length (within t (allowed_times k as')) ≤ max_transfers
unfolding allowed_times
window_limit k t [] c = omega arith
window_limit k t (a ∷ earlier) (c, cs) =
    let ih = window_limit k t earlier cs in
    let counted = within-le-remaining k a.time earlier c cs in
    let ok_up = enforce-ok a.up a.time a.sender (sets_after earlier) in
    let inside = within_earlier t a.time (allowed_times k earlier) in
    let older = allowed-All (λ u. u ≤ a.time) k earlier c in
    ground (arith, ih, counted, ok_up, inside, older)
