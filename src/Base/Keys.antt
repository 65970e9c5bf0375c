-- ===== src/Base/Keys.antt =====
-- Tables whose keys are distinct, and what selecting, ordering and writing rows does to them.
use Prim.Native.Nat.{ℕ, zero, suc, ◌+◌, ◌≤◌}
use mathlib.Core.Path.{◌≡◌, refl}
use mathlib.Core.Logic.{◌≢◌, inl, inr}
use mathlib.Core.Bool.{Bool, true, false}
use mathlib.Core.Option.{none, some}
use mathlib.Core.List.{List, [], ◌∷◌, ◌++◌}
use native.Mathlib.Omega.{arith}
use hwala.Base.Tests.{◌==◌, leb, if◌then◌else◌, Bool-cases}
use hwala.Base.Lists.{length, take, filter, All, place_asc, order_asc}
use hwala.Base.Table.{Table, lookup, insert, lookup-insert}

-- No primary key stands twice.
abbrev pub HasKeys : {V : Type 0} → Table V → Type 0
HasKeys [] = Unit
HasKeys ((k, v) ∷ t) = (lookup k t ≡ none) × HasKeys t

module _ {V : Type 0} where
  pub insert-HasKeys : (k : ℕ) (v : V) (t : Table V) → HasKeys t → HasKeys (insert k v t)
  unfolding insert lookup
  insert-HasKeys k v [] h = (refl, tt)
  insert-HasKeys k v ((j, w) ∷ t) h = elim (Bool-cases (j == k)) [
    | inl e ↦ rw e (ground arith, h.1)
    | inr e ↦ rw e (ground (arith, lookup-insert k j v t), insert-HasKeys k v t h.1)
  ]

  -- A write that concerns no row of a selection leaves the selection as it is.
  pub filter-insert :
      (q : V → Bool) (k : ℕ) (v : V) (t : Table V)
      → q v ≡ false
      → ((old : V) → lookup k t ≡ some old → q old ≡ false)
      → filter (λ (row : ℕ × V). q row.1) (insert k v t) ≡ filter (λ (row : ℕ × V). q row.1) t
  unfolding insert lookup
  filter-insert q k v [] e h = rw e
  filter-insert q k v ((j, w) ∷ t) e h = elim (Bool-cases (j == k)) [
    | inl p ↦ ground (arith, h w)
    | inr p ↦ ground (arith, filter-insert q k v t e (λ old s. h old (rw p s)))
  ]

pub filter-append :
    {A : Type 0} (q : A → Bool) (xs ys : List A)
    → All (λ y. q y ≡ false) ys
    → filter q (xs ++ ys) ≡ filter q xs
filter-append q [] [] h = refl
filter-append q [] (y ∷ ys) h = ground (arith, filter-append q [] ys h.1)
filter-append q (x ∷ xs) ys h = ground (arith, filter-append q xs ys h)

All-filter :
    {A : Type 0} (P : A → Type 0) (q : A → Bool) (xs : List A) → All P xs → All P (filter q xs)
All-filter P q [] h = tt
All-filter P q (x ∷ xs) h = elim (Bool-cases (q x)) [
  | inl e ↦ rw e (h.0, All-filter P q xs h.1)
  | inr e ↦ rw e (All-filter P q xs h.1)
]

-- The rows of a selection pass its test.
pub filter-true : {A : Type 0} (q : A → Bool) (xs : List A) → All (λ x. q x ≡ true) (filter q xs)
filter-true q [] = tt
filter-true q (x ∷ xs) = elim (Bool-cases (q x)) [
  | inl e ↦ rw e (e, filter-true q xs)
  | inr e ↦ rw e (filter-true q xs)
]

pub All-take : {A : Type 0} (P : A → Type 0) (n : ℕ) (xs : List A) → All P xs → All P (take n xs)
All-take P zero xs h = tt
All-take P (suc n) [] h = tt
All-take P (suc n) (x ∷ xs) h = (h.0, All-take P n xs h.1)

module _ {A : Type 0} (key : A → ℕ) where
  All-place_asc :
      (P : A → Type 0) (x : A) (xs : List A) → P x → All P xs → All P (place_asc key x xs)
  unfolding place_asc
  All-place_asc P x [] p h = (p, tt)
  All-place_asc P x (y ∷ ys) p h = elim (Bool-cases (leb (key x) (key y))) [
    | inl e ↦ rw e (p, h)
    | inr e ↦ rw e (h.0, All-place_asc P x ys p h.1)
  ]

  All-order_asc : (P : A → Type 0) (xs : List A) → All P xs → All P (order_asc key xs)
  unfolding order_asc
  All-order_asc P [] h = tt
  All-order_asc P (x ∷ xs) h = All-place_asc P x (order_asc key xs) h.0 (All-order_asc P xs h.1)

  length-place_asc : (x : A) (xs : List A) → length (place_asc key x xs) ≡ suc (length xs)
  unfolding place_asc
  length-place_asc x [] = refl
  length-place_asc x (y ∷ ys) = ground (arith, length-place_asc x ys)

  pub length-order_asc : (xs : List A) → length (order_asc key xs) ≡ length xs
  unfolding order_asc
  length-order_asc [] = refl
  length-order_asc (x ∷ xs) =
      omega (arith, length-place_asc x (order_asc key xs), length-order_asc xs)

pub length-take_min :
    {A : Type 0} (n : ℕ) (xs : List A)
    → length (take n xs) ≡ (if leb n (length xs) then n else length xs)
length-take_min zero xs = ground arith
length-take_min (suc n) [] = ground arith
length-take_min (suc n) (x ∷ xs) = ground (arith, length-take_min n xs)

module _ {V : Type 0} where
  lookup-filter :
      (q : ℕ × V → Bool) (k : ℕ) (t : Table V) → lookup k t ≡ none → lookup k (filter q t) ≡ none
  unfolding lookup
  lookup-filter q k [] h = refl
  lookup-filter q k ((j, w) ∷ t) h = ground (arith, lookup-filter q k t)

  pub filter-HasKeys : (q : ℕ × V → Bool) (t : Table V) → HasKeys t → HasKeys (filter q t)
  filter-HasKeys q [] h = tt
  filter-HasKeys q ((j, w) ∷ t) h = elim (Bool-cases (q (j, w))) [
    | inl e ↦ rw e (lookup-filter q j t h.0, filter-HasKeys q t h.1)
    | inr e ↦ rw e (filter-HasKeys q t h.1)
  ]

  lookup-take : (n k : ℕ) (t : Table V) → lookup k t ≡ none → lookup k (take n t) ≡ none
  unfolding lookup
  lookup-take zero k t h = refl
  lookup-take (suc n) k [] h = refl
  lookup-take (suc n) k ((j, w) ∷ t) h = ground (arith, lookup-take n k t)

  take-HasKeys : (n : ℕ) (t : Table V) → HasKeys t → HasKeys (take n t)
  take-HasKeys zero t h = tt
  take-HasKeys (suc n) [] h = tt
  take-HasKeys (suc n) ((j, w) ∷ t) h = (lookup-take n j t h.0, take-HasKeys n t h.1)

  module _ (key : ℕ × V → ℕ) where
    lookup-place_asc :
        (k j : ℕ) (v : V) (t : Table V)
        → j ≢ k
        → lookup k t ≡ none
        → lookup k (place_asc key (j, v) t) ≡ none
    unfolding lookup place_asc
    lookup-place_asc k j v [] n h = ground arith
    lookup-place_asc k j v ((i, w) ∷ t) n h = ground (arith, lookup-place_asc k j v t)

    place_asc-HasKeys :
        (j : ℕ) (v : V) (t : Table V)
        → lookup j t ≡ none
        → HasKeys t
        → HasKeys (place_asc key (j, v) t)
    unfolding lookup place_asc
    place_asc-HasKeys j v [] n h = (refl, tt)
    place_asc-HasKeys j v ((i, w) ∷ t) n h = elim (Bool-cases (leb (key (j, v)) (key (i, w)))) [
      | inl e ↦ rw e (n, h)
      | inr e ↦ rw e (
        lookup-place_asc i j v t (λ p. ground arith) h.0,
        place_asc-HasKeys j v t (ground arith) h.1,
      )
    ]

    lookup-order_asc : (k : ℕ) (t : Table V) → lookup k t ≡ none → lookup k (order_asc key t) ≡ none
    unfolding lookup order_asc
    lookup-order_asc k [] h = refl
    lookup-order_asc k ((j, w) ∷ t) h =
        lookup-place_asc k j w (order_asc key t) (λ p. ground arith)
          (lookup-order_asc k t (ground arith))

    order_asc-HasKeys : (t : Table V) → HasKeys t → HasKeys (order_asc key t)
    unfolding order_asc
    order_asc-HasKeys [] h = tt
    order_asc-HasKeys ((j, w) ∷ t) h =
        place_asc-HasKeys j w (order_asc key t) (lookup-order_asc j t h.0) (order_asc-HasKeys t h.1)

  -- The rows are those of a table.
  abbrev pub AreRows : Table V → Table V → Type 0
  AreRows all rows = All (λ (row : ℕ × V). lookup row.0 all ≡ some row.1) rows

  weaken :
      (j : ℕ) (w : V) (all rows : Table V)
      → lookup j all ≡ none
      → AreRows all rows
      → AreRows ((j, w) ∷ all) rows
  unfolding lookup
  weaken j w all [] h p = tt
  weaken j w all ((k, v) ∷ rows) h p = (ground arith, weaken j w all rows h p.1)

  -- A write under another key.
  pub AreRows-insert :
      (j : ℕ) (w : V) (all rows : Table V)
      → lookup j rows ≡ none
      → AreRows all rows
      → AreRows (insert j w all) rows
  unfolding lookup
  AreRows-insert j w all [] h p = tt
  AreRows-insert j w all ((k, v) ∷ rows) h p =
      (ground (arith, lookup-insert j k w all), AreRows-insert j w all rows (ground arith) p.1)

  pub HasKeys-AreRows : (t : Table V) → HasKeys t → AreRows t t
  unfolding lookup
  HasKeys-AreRows [] h = tt
  HasKeys-AreRows ((j, w) ∷ t) h = (ground arith, weaken j w t t h.0 (HasKeys-AreRows t h.1))

  -- The first rows of a selection in the order of a key.
  abbrev pub first_rows : (key : ℕ × V → ℕ) (q : ℕ × V → Bool) (n : ℕ) → Table V → Table V
  first_rows key q n t = take n (order_asc key (filter q t))

  pub first_rows-HasKeys :
      (key : ℕ × V → ℕ) (q : ℕ × V → Bool) (n : ℕ) (t : Table V)
      → HasKeys t
      → HasKeys (first_rows key q n t)
  first_rows-HasKeys key q n t h =
      take-HasKeys n _ (order_asc-HasKeys key (filter q t) (filter-HasKeys q t h))

  pub first_rows-AreRows :
      (key : ℕ × V → ℕ) (q : ℕ × V → Bool) (n : ℕ) (t : Table V)
      → HasKeys t
      → AreRows t (first_rows key q n t)
  first_rows-AreRows key q n t h =
      All-take _ n (order_asc key (filter q t))
        (All-order_asc key _ (filter q t) (All-filter _ q t (HasKeys-AreRows t h)))

  pub first_rows-true :
      (key : ℕ × V → ℕ) (q : ℕ × V → Bool) (n : ℕ) (t : Table V)
      → All (λ (row : ℕ × V). q row ≡ true) (first_rows key q n t)
  first_rows-true key q n t =
      All-take _ n (order_asc key (filter q t)) (All-order_asc key _ (filter q t) (filter-true q t))

  -- The rows that pass a test, and what a write does to their number.
  unfoldable pub count : (V → Bool) → Table V → ℕ
  count q t = length (filter (λ (row : ℕ × V). q row.1) t)

  pub count-insert :
      (q : V → Bool) (k : ℕ) (v old : V) (t : Table V)
      → lookup k t ≡ some old
      → count q (insert k v t) + (if q old then 1 else 0) ≡ count q t + (if q v then 1 else 0)
  unfolding insert lookup count
  count-insert q k v old [] h = cc
  count-insert q k v old ((j, w) ∷ t) h = ground (arith, count-insert q k v old t)

  pub count-lookup :
      (q : V → Bool) (k : ℕ) (v : V) (t : Table V)
      → lookup k t ≡ some v
      → q v ≡ true
      → 1 ≤ count q t
  unfolding lookup count
  count-lookup q k v [] h e = cc
  count-lookup q k v ((j, w) ∷ t) h e = ground (arith, count-lookup q k v t)
