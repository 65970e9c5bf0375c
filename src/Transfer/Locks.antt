-- ===== src/Transfer/Locks.antt =====
-- The rows that an operation locks, in the order of its `SELECT … FOR UPDATE` statements and of its
-- updates (src/transfer/transfer.service.ts). An id is the text of a UUID, given by its place in the
-- order of texts; `cast` takes it to the row's key, as `::uuid` does.
use hwala.Base.{map, ◌++◌, Bool, ℕ, Option, none, some, List, [], ◌∷◌, ◌==◌, leb, if◌then◌else◌}

-- `.filter((id) => Boolean(id))` on the optional id at the end.
abbrev pub present : Option ℕ → List ℕ
present none = []
present (some id) = id ∷ []

-- `new Set(ids)`: a later duplicate is dropped.
unfoldable pub remove_id : ℕ → List ℕ → List ℕ
remove_id x [] = []
remove_id x (y ∷ ys) = let rest = remove_id x ys in if x == y then rest else y ∷ rest

unfoldable pub distinct : List ℕ → List ℕ
unfolding remove_id
distinct [] = []
distinct (x ∷ xs) = x ∷ remove_id x (distinct xs)

-- `.sort()`
unfoldable pub place : ℕ → List ℕ → List ℕ
place x [] = x ∷ []
place x (y ∷ ys) = let rest = place x ys in if leb x y then x ∷ y ∷ ys else y ∷ rest

unfoldable pub sort : List ℕ → List ℕ
unfolding place
sort [] = []
sort (x ∷ xs) = place x (sort xs)

-- `accountIdsToLock` of `executeTransfer`.
unfoldable pub account_ids_to_lock : (sender_id receiver_id : ℕ) → Option ℕ → List ℕ
unfolding distinct sort
account_ids_to_lock sender_id receiver_id revenue =
    sort (distinct (sender_id ∷ receiver_id ∷ present revenue))

-- The two locks of `captureHold`; the sort keeps two equal ids, which its guard has excluded.
unfoldable pub capture_ids_to_lock : (sender_id receiver_id : ℕ) → List ℕ
unfolding sort
capture_ids_to_lock sender_id receiver_id = sort (sender_id ∷ receiver_id ∷ [])

-- The locks of the statements for the ids `selected`, then of the updates of the accounts `updated`: a row that the
-- transaction has locked is not locked again.
abbrev pub row_locks : (cast : ℕ → ℕ) (selected updated : List ℕ) → List ℕ
row_locks cast selected updated = distinct (map cast selected ++ map cast updated)

-- … of `executeTransfer`; it updates the sender, the receiver and the revenue account.
unfoldable pub transfer_locks : (cast : ℕ → ℕ) (sender_id receiver_id : ℕ) → Option ℕ → List ℕ
transfer_locks cast sender_id receiver_id revenue =
    row_locks cast (account_ids_to_lock sender_id receiver_id revenue)
      (sender_id ∷ receiver_id ∷ present revenue)

-- … of `holdFunds` and `releaseHold`.
unfoldable pub hold_locks : (cast : ℕ → ℕ) (account_id : ℕ) → List ℕ
hold_locks cast account_id = row_locks cast (account_id ∷ []) (account_id ∷ [])

-- … of `captureHold`, with a remainder to give back or without.
unfoldable pub capture_locks :
    (cast : ℕ → ℕ) (sender_id receiver_id : ℕ) (with_remainder : Bool) → List ℕ
capture_locks cast sender_id receiver_id with_remainder =
    row_locks cast (capture_ids_to_lock sender_id receiver_id)
      (sender_id ∷ receiver_id ∷ (if with_remainder then sender_id ∷ [] else []))
