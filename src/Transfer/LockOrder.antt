-- ===== src/Transfer/LockOrder.antt =====
-- The locks of an operation (src/transfer/transfer.service.ts) come in strictly increasing order, and are
-- those of the accounts that it names.
use hwala.Base.{
  true, map, ◌++◌, ap, ==-refl, ℕ, ◌<◌, ◌≡◌, refl, sym, ◌∙◌, ◌≢◌, Bool, false, ◌||◌, Option, List,
  [], ◌∷◌, All, arith, ◌==◌, leb, if◌then◌else◌, Bool-cases, inl, inr,
}
use hwala.Transfer.Locks.{
  present, remove_id, distinct, place, sort, account_ids_to_lock, capture_ids_to_lock,
}

abbrev pub contains : ℕ → List ℕ → Bool
contains k [] = false
contains k (x ∷ xs) = x == k || contains k xs

abbrev pub IsIncreasing : List ℕ → Type 0
IsIncreasing [] = Unit
IsIncreasing (x ∷ xs) = All (λ y. x < y) xs × IsIncreasing xs

abbrev IsDistinct : List ℕ → Type 0
IsDistinct [] = Unit
IsDistinct (x ∷ xs) = All (λ y. y ≢ x) xs × IsDistinct xs

All-remove_id : (P : ℕ → Type 0) (x : ℕ) (ys : List ℕ) → All P ys → All P (remove_id x ys)
unfolding remove_id
All-remove_id P x [] h = tt
All-remove_id P x (y ∷ ys) (p, h) = elim (Bool-cases (x == y)) [
  | inl e ↦ rw e (All-remove_id P x ys h)
  | inr e ↦ rw e (p, All-remove_id P x ys h)
]

remove_id_gone : (x : ℕ) (ys : List ℕ) → All (λ y. y ≢ x) (remove_id x ys)
unfolding remove_id
remove_id_gone x [] = tt
remove_id_gone x (y ∷ ys) = elim (Bool-cases (x == y)) [
  | inl e ↦ rw e (remove_id_gone x ys)
  | inr e ↦ rw e (ground arith, remove_id_gone x ys)
]

remove_id-IsDistinct : (x : ℕ) (ys : List ℕ) → IsDistinct ys → IsDistinct (remove_id x ys)
unfolding remove_id
remove_id-IsDistinct x [] h = tt
remove_id-IsDistinct x (y ∷ ys) (p, h) = elim (Bool-cases (x == y)) [
  | inl e ↦ rw e (remove_id-IsDistinct x ys h)
  | inr e ↦ rw e (All-remove_id (λ z. z ≢ y) x ys p, remove_id-IsDistinct x ys h)
]

distinct-IsDistinct : (xs : List ℕ) → IsDistinct (distinct xs)
unfolding distinct
distinct-IsDistinct [] = tt
distinct-IsDistinct (x ∷ xs) =
    (remove_id_gone x (distinct xs), remove_id-IsDistinct x (distinct xs) (distinct-IsDistinct xs))

All-place : (P : ℕ → Type 0) (x : ℕ) (ys : List ℕ) → P x → All P ys → All P (place x ys)
unfolding place
All-place P x [] p h = (p, tt)
All-place P x (y ∷ ys) p (q, h) = elim (Bool-cases (leb x y)) [
  | inl e ↦ rw e (p, (q, h))
  | inr e ↦ rw e (q, All-place P x ys p h)
]

below-All : (x y : ℕ) (ys : List ℕ) → x < y → All (λ z. y < z) ys → All (λ z. x < z) ys
below-All x y [] p h = tt
below-All x y (z ∷ ys) p (q, h) = (omega arith, below-All x y ys p h)

place-IsIncreasing :
    (x : ℕ) (ys : List ℕ) → All (λ y. y ≢ x) ys → IsIncreasing ys → IsIncreasing (place x ys)
unfolding place
place-IsIncreasing x [] n h = (tt, tt)
place-IsIncreasing x (y ∷ ys) (n, ns) (p, h) = elim (Bool-cases (leb x y)) [
  | inl e ↦ let less : x < y = ground arith in rw e ((less, below-All x y ys less p), (p, h))
  | inr e ↦ rw e (All-place (λ z. y < z) x ys (ground arith) p, place-IsIncreasing x ys ns h)
]

All-sort : (P : ℕ → Type 0) (xs : List ℕ) → All P xs → All P (sort xs)
unfolding sort
All-sort P [] h = tt
All-sort P (x ∷ xs) (p, h) = All-place P x (sort xs) p (All-sort P xs h)

sort-IsIncreasing : (xs : List ℕ) → IsDistinct xs → IsIncreasing (sort xs)
unfolding sort
sort-IsIncreasing [] h = tt
sort-IsIncreasing (x ∷ xs) (n, h) =
    place-IsIncreasing x (sort xs) (All-sort (λ y. y ≢ x) xs n) (sort-IsIncreasing xs h)

contains-remove_id :
    (k x : ℕ) (ys : List ℕ)
    → contains k (remove_id x ys) ≡ (if x == k then false else contains k ys)
unfolding remove_id
contains-remove_id k x [] = ground arith
contains-remove_id k x (y ∷ ys) = ground (arith, contains-remove_id k x ys)

contains-distinct : (k : ℕ) (xs : List ℕ) → contains k (distinct xs) ≡ contains k xs
unfolding distinct
contains-distinct k [] = refl
contains-distinct k (x ∷ xs) =
    ground (arith, contains-remove_id k x (distinct xs), contains-distinct k xs)

contains-place : (k x : ℕ) (ys : List ℕ) → contains k (place x ys) ≡ (x == k || contains k ys)
unfolding place
contains-place k x [] = refl
contains-place k x (y ∷ ys) = ground (arith, contains-place k x ys)

contains-sort : (k : ℕ) (xs : List ℕ) → contains k (sort xs) ≡ contains k xs
unfolding sort
contains-sort k [] = refl
contains-sort k (x ∷ xs) = ground (arith, contains-place k x (sort xs), contains-sort k xs)

-- The ids `ys` that `held` lacks.
abbrev missing : List ℕ → List ℕ → List ℕ
missing held [] = []
missing held (y ∷ ys) = let rest = missing held ys in if contains y held then rest else y ∷ rest

remove_id-append :
    (x : ℕ) (l m : List ℕ) → All (λ y. x < y) l → remove_id x (l ++ m) ≡ l ++ remove_id x m
unfolding remove_id
remove_id-append x [] m h = refl
remove_id-append x (y ∷ l) m (p, h) = ground (arith, remove_id-append x l m h)

remove_id-missing : (x : ℕ) (l ys : List ℕ) → remove_id x (missing l ys) ≡ missing (x ∷ l) ys
unfolding remove_id
remove_id-missing x l [] = refl
remove_id-missing x l (y ∷ ys) = ground (arith, remove_id-missing x l ys)

missing_none : (ys : List ℕ) → missing [] ys ≡ ys
missing_none [] = refl
missing_none (y ∷ ys) = ap (λ l. y ∷ l) (missing_none ys)

missing_nothing : (l ys : List ℕ) → All (λ k. contains k l ≡ true) ys → missing l ys ≡ []
missing_nothing l [] h = refl
missing_nothing l (y ∷ ys) (p, h) = rw p (missing_nothing l ys h)

All-distinct : (P : ℕ → Type 0) (xs : List ℕ) → All P xs → All P (distinct xs)
unfolding distinct
All-distinct P [] h = tt
All-distinct P (x ∷ xs) (p, h) = (p, All-remove_id P x (distinct xs) (All-distinct P xs h))

distinct-append : (l u : List ℕ) → IsIncreasing l → distinct (l ++ u) ≡ l ++ missing l (distinct u)
unfolding distinct
distinct-append [] u h = sym (missing_none (distinct u))
distinct-append (x ∷ l) u (p, h) =
    ap (λ m. x ∷ m)
      (ap (remove_id x) (distinct-append l u h)
        ∙ remove_id-append x l (missing l (distinct u)) p
        ∙ ap (λ m. l ++ m) (remove_id-missing x l (distinct u)))

append_nil : (l : List ℕ) → l ++ [] ≡ l
append_nil [] = refl
append_nil (x ∷ l) = ap (λ m. x ∷ m) (append_nil l)

-- Rows that are locked already, in increasing order, leave the order of the locks as it is.
pub distinct_held :
    (l u : List ℕ) → IsIncreasing l → All (λ k. contains k l ≡ true) u → distinct (l ++ u) ≡ l
distinct_held l u h held =
    distinct-append l u h
    ∙ ap (λ m. l ++ m) (missing_nothing l (distinct u) (All-distinct _ u held))
    ∙ append_nil l

-- The cast of ids that keeps their order.
module _ (cast : ℕ → ℕ) (ordered : (a b : ℕ) → a < b → cast a < cast b) where
  All-cast : (x : ℕ) (l : List ℕ) → All (λ y. x < y) l → All (λ y. cast x < y) (map cast l)
  All-cast x [] h = tt
  All-cast x (y ∷ l) (p, h) = (ordered x y p, All-cast x l h)

  pub cast-IsIncreasing : (l : List ℕ) → IsIncreasing l → IsIncreasing (map cast l)
  cast-IsIncreasing [] h = tt
  cast-IsIncreasing (x ∷ l) (p, h) = (All-cast x l p, cast-IsIncreasing l h)

contains-map :
    (cast : ℕ → ℕ) (k : ℕ) (l : List ℕ)
    → contains k l ≡ true
    → contains (cast k) (map cast l) ≡ true
contains-map cast k [] h = absurd (ground arith)
contains-map cast k (x ∷ l) h = elim (Bool-cases (x == k)) [
  | inl e ↦ let same : x ≡ k = ground arith in rw same (rw (==-refl (cast k)) refl)
  | inr e ↦
      let later : contains (cast k) (map cast l) ≡ true = contains-map cast k l (ground arith) in
      ground (arith, later)
]

-- Ids that are all among `l` are, cast, all among the cast of `l`.
pub cast_held :
    (cast : ℕ → ℕ) (l u : List ℕ)
    → All (λ k. contains k l ≡ true) u
    → All (λ k. contains k (map cast l) ≡ true) (map cast u)
cast_held cast l [] h = tt
cast_held cast l (k ∷ u) (p, h) = (contains-map cast k l p, cast_held cast l u h)

pub named_locked :
    (l u : List ℕ) → ((k : ℕ) → contains k l ≡ contains k u) → All (λ k. contains k l ≡ true) u
named_locked l u same = all_of u (λ k e. same k ∙ e)
  where
    all_of :
        (us : List ℕ)
        → ((k : ℕ) → contains k us ≡ true → contains k l ≡ true)
        → All (λ k. contains k l ≡ true) us
    all_of [] f = tt
    all_of (x ∷ us) f = (f x (rw (==-refl x) refl), all_of us (λ k e. f k (ground (arith, e))))

-- A transfer locks each of the accounts that it names once, and no other, in strictly increasing
-- order.
pub account_ids_to_lock_ordered :
    (s r : ℕ) (revenue : Option ℕ)
    → IsIncreasing (account_ids_to_lock s r revenue)
      × ((k : ℕ)
          → contains k (account_ids_to_lock s r revenue) ≡ contains k (s ∷ r ∷ present revenue))
unfolding account_ids_to_lock
account_ids_to_lock_ordered s r revenue =
    let ids : List ℕ = s ∷ r ∷ present revenue in
    (
      sort-IsIncreasing (distinct ids) (distinct-IsDistinct ids),
      λ k. contains-sort k (distinct ids) ∙ contains-distinct k ids,
    )

pub capture_ids_to_lock-IsIncreasing : (s r : ℕ) → s ≢ r → IsIncreasing (capture_ids_to_lock s r)
unfolding capture_ids_to_lock
capture_ids_to_lock-IsIncreasing s r n =
    sort-IsIncreasing (s ∷ r ∷ []) ((λ e. n (sym e), tt), (tt, tt))

pub capture_ids_to_lock_same :
    (s r k : ℕ) → contains k (capture_ids_to_lock s r) ≡ contains k (s ∷ r ∷ [])
unfolding capture_ids_to_lock
capture_ids_to_lock_same s r k = contains-sort k (s ∷ r ∷ [])
