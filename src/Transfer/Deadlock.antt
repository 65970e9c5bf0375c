-- ===== src/Transfer/Deadlock.antt =====
-- Transactions of src/transfer/transfer.service.ts that take their row locks side by side. A row lock
-- is held until its transaction ends; a transaction waits while another holds the next lock that it
-- wants.
use hwala.Base.{
  Bool, map, refl, ==-refl, ℕ, ◌<◌, ◌≤◌, ◌≡◌, sym, ◌∙◌, ◌≢◌, true, false, Option, List, [], ◌∷◌,
  All, arith, ◌==◌, if◌then◌else◌, Bool-cases, inl, inr,
}
use hwala.Transfer.Locks.{
  account_ids_to_lock, present, capture_ids_to_lock, row_locks, transfer_locks, hold_locks,
  capture_locks,
}
use hwala.Transfer.LockOrder.{
  contains, IsIncreasing, account_ids_to_lock_ordered, capture_ids_to_lock-IsIncreasing,
  capture_ids_to_lock_same, distinct_held, cast-IsIncreasing, cast_held, named_locked,
}

-- The operations that lock: a hold and a release lock one account, a capture has checked that its
-- two accounts differ.
pub data Operation : Type 0 where
  transfer : (sender_id receiver_id : ℕ) (revenue : Option ℕ) → Operation
  hold_or_release : (account_id : ℕ) → Operation
  capture :
      (sender_id receiver_id : ℕ) (with_remainder : Bool) → sender_id ≢ receiver_id → Operation

unfoldable pub locks : (cast : ℕ → ℕ) → Operation → List ℕ
locks cast (transfer s r revenue) = transfer_locks cast s r revenue
locks cast (hold_or_release id) = hold_locks cast id
locks cast (capture s r with_remainder distinct_accounts) = capture_locks cast s r with_remainder

-- The locks that a transaction holds, and those that it still has to take, in this order.
pub record Locking : Type 0 where
  pub held : List ℕ
  pub todo : List ℕ

abbrev pub idle : Locking
idle = record { held = []; todo = [] }

abbrev pub System : Type 0
System = ℕ → Locking

abbrev pub update : System → ℕ → Locking → System
update sys i t j = if i == j then t else sys j

pub data Step (cast : ℕ → ℕ) (sys : System) : System → Type 0 where
  begin :
      (i : ℕ) (op : Operation)
      → Step cast sys (update sys i (record { held = []; todo = locks cast op }))
  take_lock :
      (i x : ℕ) (rest : List ℕ)
      → (sys i).todo ≡ x ∷ rest
      → ((j : ℕ) → contains x (sys j).held ≡ false)
      → Step cast sys (update sys i (record { held = x ∷ (sys i).held; todo = rest }))
  finish : (i : ℕ) → Step cast sys (update sys i idle)

pub data Reach (cast : ℕ → ℕ) : System → Type 0 where
  start : Reach cast (λ i. idle)
  next : {s t : System} → Reach cast s → Step cast s t → Reach cast t

-- What is held lies below what is still wanted.
abbrev IsOrdered : Locking → Type 0
IsOrdered t = IsIncreasing t.todo × All (λ h. All (λ w. h < w) t.todo) t.held

module _ (cast : ℕ → ℕ) (ordered : (a b : ℕ) → a < b → cast a < cast b) where
  -- The updates of an operation take no lock that its statements have not taken.
  row_locks-IsIncreasing :
      (selected updated : List ℕ)
      → IsIncreasing selected
      → All (λ k. contains k selected ≡ true) updated
      → IsIncreasing (row_locks cast selected updated)
  row_locks-IsIncreasing selected updated h held =
      let h' = cast-IsIncreasing cast ordered selected h in
      rw
        (distinct_held (map cast selected) (map cast updated) h'
          (cast_held cast selected updated held))
        h'

  locks-IsIncreasing : (op : Operation) → IsIncreasing (locks cast op)
  unfolding locks transfer_locks hold_locks capture_locks
  locks-IsIncreasing (transfer s r revenue) =
      let (increasing, same) = account_ids_to_lock_ordered s r revenue in
      row_locks-IsIncreasing (account_ids_to_lock s r revenue) (s ∷ r ∷ present revenue) increasing
        (named_locked (account_ids_to_lock s r revenue) (s ∷ r ∷ present revenue) same)
  locks-IsIncreasing (hold_or_release id) =
      row_locks-IsIncreasing (id ∷ []) (id ∷ []) (tt, tt) (rw (==-refl id) refl, tt)
  locks-IsIncreasing (capture s r with_remainder n) =
      let (s_in, (r_in, _)) =
        named_locked (capture_ids_to_lock s r) (s ∷ r ∷ []) (capture_ids_to_lock_same s r) in
      row_locks-IsIncreasing (capture_ids_to_lock s r)
        (s ∷ r ∷ (if with_remainder then s ∷ [] else [])) (capture_ids_to_lock-IsIncreasing s r n)
        (
          s_in,
          (r_in, elim (Bool-cases with_remainder) [ inl e ↦ rw e (s_in, tt) | inr e ↦ rw e tt ]),
        )

tails :
    (x : ℕ) (rest hs : List ℕ)
    → All (λ h. All (λ w. h < w) (x ∷ rest)) hs
    → All (λ h. All (λ w. h < w) rest) hs
tails x rest [] h = tt
tails x rest (y ∷ hs) (p, h) = (p.1, tails x rest hs h)

acquired :
    (x : ℕ) (rest hs todo : List ℕ)
    → todo ≡ x ∷ rest
    → IsIncreasing todo × All (λ h. All (λ w. h < w) todo) hs
    → IsOrdered (record { held = x ∷ hs; todo = rest })
acquired x rest hs todo e h =
    let h' : IsIncreasing (x ∷ rest) × All (λ h. All (λ w. h < w) (x ∷ rest)) hs = rw e at h in
    (h'.0.1, (h'.0.0, tails x rest hs h'.1))

update-All :
    (sys : System) (i : ℕ) (t : Locking)
    → ((j : ℕ) → IsOrdered (sys j))
    → IsOrdered t
    → (j : ℕ) → IsOrdered (update sys i t j)
update-All sys i t h p j = elim (Bool-cases (i == j)) [ inl e ↦ rw e p | inr e ↦ rw e (h j) ]

module _ (cast : ℕ → ℕ) (ordered : (a b : ℕ) → a < b → cast a < cast b) where
  Reach-IsOrdered : {sys : System} → Reach cast sys → (j : ℕ) → IsOrdered (sys j)
  Reach-IsOrdered start j = (tt, tt)
  Reach-IsOrdered (next {s = s} r (begin i op)) j =
      update-All s i _ (Reach-IsOrdered r) (locks-IsIncreasing cast ordered op, tt) j
  Reach-IsOrdered (next {s = s} r (take_lock i x rest e free)) j =
      update-All s i _ (Reach-IsOrdered r)
        (acquired x rest (s i).held (s i).todo e (Reach-IsOrdered r i)) j
  Reach-IsOrdered (next {s = s} r (finish i)) j = update-All s i idle (Reach-IsOrdered r) (tt, tt) j

-- The next lock that `i` wants is held by `j`.
abbrev pub Waits : System → ℕ → ℕ → Type 0
Waits sys i j =
    (x : ℕ) × (rest : List ℕ) × ((sys i).todo ≡ x ∷ rest) × (contains x (sys j).held ≡ true)

-- A chain of waits.
pub data WaitsFor (sys : System) (i : ℕ) : ℕ → Type 0 where
  one : {j : ℕ} → Waits sys i j → WaitsFor sys i j
  more : {j k : ℕ} → WaitsFor sys i j → Waits sys j k → WaitsFor sys i k

held_below :
    (y w : ℕ) (hs todo : List ℕ)
    → All (λ h. All (λ v. h < v) todo) hs
    → (rest : List ℕ) → todo ≡ w ∷ rest
    → contains y hs ≡ true
    → y < w
held_below y w [] todo h rest e c = cc
held_below y w (x ∷ hs) todo (p, h) rest e c = elim (Bool-cases (x == y)) [
  | inl q ↦ let p' : All (λ v. x < v) (w ∷ rest) = rw e at p in ground (arith, p'.0)
  | inr q ↦ held_below y w hs todo h rest e (ground arith)
]

-- Along a chain the locks grow: its end holds a lock that is no smaller than the one that its start
-- wants.
chain_grows :
    {sys : System} {i j : ℕ}
    → ((k : ℕ) → IsOrdered (sys k))
    → WaitsFor sys i j
    → (x : ℕ) (rest : List ℕ) → (sys i).todo ≡ x ∷ rest
    → (y : ℕ) × (x ≤ y) × (contains y (sys j).held ≡ true)
chain_grows ordered (one (y, rest', e', c)) x rest e =
    let same : x ∷ rest ≡ y ∷ rest' = sym e ∙ e' in (y, ground arith, c)
chain_grows {sys} ordered (more {j = j} w (z, rest', e', c)) x rest e =
    let (y, le, cy) = chain_grows ordered w x rest e in
    let less : y < z = held_below y z (sys j).held (sys j).todo (ordered j).1 rest' e' cy in
    (z, omega arith, c)

-- If the cast of the ids in use keeps their order, as that of ids in lower case does, then whatever operations run side
-- by side, in whatever interleaving, no transaction ever waits for itself through a chain of others: there is no
-- deadlock over the account rows that the operations select for update and then update.
pub no_deadlock :
    (cast : ℕ → ℕ)
    → ((a b : ℕ) → a < b → cast a < cast b)
    → {sys : System} → Reach cast sys
    → (i : ℕ) → ¬ WaitsFor sys i i
no_deadlock cast ordered {sys} r i w =
    let (x, rest, e) = first w in
    let (y, le, c) = chain_grows (Reach-IsOrdered cast ordered r) w x rest e in
    let less : y < x =
      held_below y x (sys i).held (sys i).todo (Reach-IsOrdered cast ordered r i).1 rest e c in
    absurd (omega arith)
  where
    first : {j : ℕ} → WaitsFor sys i j → (x : ℕ) × (rest : List ℕ) × ((sys i).todo ≡ x ∷ rest)
    first (one (x, rest, e, _)) = (x, rest, e)
    first (more w _) = first w
