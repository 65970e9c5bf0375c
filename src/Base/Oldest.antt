-- ===== src/Base/Oldest.antt =====
-- The first rows of a selection in ascending order of a key (`findMany` with `where`, `orderBy` and `take`), described
-- without the sort.
use Prim.Native.Nat.{ℕ, zero, suc, ◌≤◌}
use mathlib.Core.Path.{◌≡◌, refl, sym, ◌∙◌}
use mathlib.Core.Logic.{◌⊎◌, inl, inr}
use mathlib.Core.Bool.{Bool, true}
use mathlib.Core.Option.{none, some}
use mathlib.Core.List.{List, [], ◌∷◌}
use native.Mathlib.Omega.{arith}
use hwala.Base.Tests.{◌==◌, leb, if◌then◌else◌, Bool-cases}
use hwala.Base.Lists.{take, filter, All, place_asc, order_asc}
use hwala.Base.Table.{Table, lookup}
use hwala.Base.Keys.{
  HasKeys, AreRows, first_rows, filter-HasKeys, first_rows-HasKeys, first_rows-AreRows,
  first_rows-true, All-take,
}

module _ {A : Type 0} (key : A → ℕ) where
  abbrev pub IsAscending : List A → Type 0
  IsAscending [] = Unit
  IsAscending (x ∷ xs) = All (λ y. key x ≤ key y) xs × IsAscending xs

  All-below : (m n : ℕ) (xs : List A) → m ≤ n → All (λ y. n ≤ key y) xs → All (λ y. m ≤ key y) xs
  All-below m n [] le h = tt
  All-below m n (x ∷ xs) le (p, h) = (omega arith, All-below m n xs le h)

  All-place_asc :
      (P : A → Type 0) (x : A) (xs : List A) → P x → All P xs → All P (place_asc key x xs)
  unfolding place_asc
  All-place_asc P x [] p h = (p, tt)
  All-place_asc P x (y ∷ ys) p h = elim (Bool-cases (leb (key x) (key y))) [
    | inl e ↦ rw e (p, h)
    | inr e ↦ rw e (h.0, All-place_asc P x ys p h.1)
  ]

  place_asc-IsAscending : (x : A) (xs : List A) → IsAscending xs → IsAscending (place_asc key x xs)
  unfolding place_asc
  place_asc-IsAscending x [] h = (tt, tt)
  place_asc-IsAscending x (y ∷ ys) (p, h) = elim (Bool-cases (leb (key x) (key y))) [
    | inl e ↦
        let le : key x ≤ key y = ground arith in
        rw e ((le, All-below (key x) (key y) ys le p), (p, h))
    | inr e ↦
        let le : key y ≤ key x = ground arith in
        rw e (All-place_asc (λ z. key y ≤ key z) x ys le p, place_asc-IsAscending x ys h)
  ]

  order_asc-IsAscending : (xs : List A) → IsAscending (order_asc key xs)
  unfolding order_asc
  order_asc-IsAscending [] = tt
  order_asc-IsAscending (x ∷ xs) =
      place_asc-IsAscending x (order_asc key xs) (order_asc-IsAscending xs)

  take-IsAscending : (n : ℕ) (xs : List A) → IsAscending xs → IsAscending (take n xs)
  take-IsAscending zero xs h = tt
  take-IsAscending (suc n) [] h = tt
  take-IsAscending (suc n) (x ∷ xs) (p, h) = (All-take _ n xs p, take-IsAscending n xs h)

module _ {V : Type 0} (key : ℕ × V → ℕ) where
  lookup-place_asc :
      (k j : ℕ) (v : V) (t : Table V)
      → lookup j t ≡ none
      → lookup k (place_asc key (j, v) t) ≡ (if j == k then some v else lookup k t)
  unfolding lookup place_asc
  lookup-place_asc k j v [] h = ground arith
  lookup-place_asc k j v ((i, w) ∷ t) h = ground (arith, lookup-place_asc k j v t)

  lookup-order_asc : (k : ℕ) (t : Table V) → HasKeys t → lookup k (order_asc key t) ≡ lookup k t
  unfolding lookup order_asc
  lookup-order_asc k [] h = refl
  lookup-order_asc k ((j, w) ∷ t) h =
      lookup-place_asc k j w (order_asc key t) (lookup-order_asc j t h.1 ∙ h.0)
      ∙ ground (arith, lookup-order_asc k t h.1)

  lookup-filter :
      (q : ℕ × V → Bool) (k : ℕ) (v : V) (t : Table V)
      → lookup k t ≡ some v
      → q (k, v) ≡ true
      → lookup k (filter q t) ≡ some v
  unfolding lookup
  lookup-filter q k v [] h e = cc
  lookup-filter q k v ((j, w) ∷ t) h e = elim (Bool-cases (j == k)) [
    | inl p ↦
        let same : j ≡ k = ground arith in
        let value : w ≡ v = ground arith in
        let passes : q (j, w) ≡ true = rw same (rw value e) in rw passes (ground arith)
    | inr p ↦
        let later = lookup-filter q k v t (ground arith) e in
        elim (Bool-cases (q (j, w))) [ inl r ↦ rw r (rw p later) | inr r ↦ rw r later ]
  ]

  All-upto :
      (m n : ℕ) (xs : Table V) → m ≤ n → All (λ row. key row ≤ m) xs → All (λ row. key row ≤ n) xs
  All-upto m n [] le h = tt
  All-upto m n (x ∷ xs) le (p, h) = (omega arith, All-upto m n xs le h)

  lookup-below :
      (m k : ℕ) (v : V) (t : Table V)
      → All (λ row. m ≤ key row) t
      → lookup k t ≡ some v
      → m ≤ key (k, v)
  unfolding lookup
  lookup-below m k v [] h e = cc
  lookup-below m k v ((j, w) ∷ t) h e = elim (Bool-cases (j == k)) [
    | inl p ↦
        let same : j ≡ k = ground arith in
        let value : w ≡ v = ground arith in rw (sym same) (rw (sym value) h.0)
    | inr p ↦ lookup-below m k v t h.1 (ground arith)
  ]

  -- A row is among the first ones, or none of these is greater.
  take-first :
      (n k : ℕ) (v : V) (t : Table V)
      → IsAscending key t
      → lookup k t ≡ some v
      → (lookup k (take n t) ≡ some v) ⊎ All (λ row. key row ≤ key (k, v)) (take n t)
  unfolding lookup
  take-first zero k v t h e = inr tt
  take-first (suc n) k v [] h e = inr tt
  take-first (suc n) k v ((j, w) ∷ t) (p, h) e = elim (Bool-cases (j == k)) [
    | inl q ↦ inl (ground arith)
    | inr q ↦ elim (take-first n k v t h (ground arith)) [
      | inl found ↦ inl (rw q found)
      | inr all ↦ inr (lookup-below (key (j, w)) k v t p (ground arith), all)
    ]
  ]

  -- Rows of a table that pass a test, each once, in ascending order, and no row that passes it and is left out comes
  -- before any of them.
  pub record AreFirst (q : ℕ × V → Bool) (all rows : Table V) : Type 0 where
    pub keys : HasKeys rows
    pub are_rows : AreRows all rows
    pub pass : All (λ row. q row ≡ true) rows
    pub ascending : IsAscending key rows
    pub before :
        (k : ℕ) (v : V)
        → lookup k all ≡ some v
        → q (k, v) ≡ true
        → (lookup k rows ≡ some v) ⊎ All (λ row. key row ≤ key (k, v)) rows

  pub first_rows-AreFirst :
      (q : ℕ × V → Bool) (n : ℕ) (t : Table V) → HasKeys t → AreFirst q t (first_rows key q n t)
  first_rows-AreFirst q n t h = record {
    keys = first_rows-HasKeys key q n t h;
    are_rows = first_rows-AreRows key q n t h;
    pass = first_rows-true key q n t;
    ascending = take-IsAscending key n _ (order_asc-IsAscending key (filter q t));
    before = λ k v e p.
        take-first n k v (order_asc key (filter q t)) (order_asc-IsAscending key (filter q t))
          (lookup-order_asc k (filter q t) (filter-HasKeys q t h) ∙ lookup-filter q k v t e p);
  }
