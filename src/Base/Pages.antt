-- ===== src/Base/Pages.antt =====
-- Selections in descending order, cut into pages (`findMany` with `where`, `orderBy`, `skip` and `take`).
use Prim.Native.Nat.{ℕ, zero, suc, ◌+◌, ◌*◌, ◌≤◌}
use mathlib.Core.Path.{◌≡◌, refl, sym, ap, ◌∙◌}
use mathlib.Core.Logic.{inl, inr}
use mathlib.Core.Bool.{Bool}
use mathlib.Core.Option.{Option, none, some}
use mathlib.Core.List.{List, [], ◌∷◌, ◌++◌}
use native.Mathlib.Omega.{arith}
use native.Mathlib.Numerals.{unary_clauses}
use hwala.Base.Tests.{◌==◌, leb, if◌then◌else◌, Bool-cases}
use hwala.Base.Lists.{length, take, drop, filter, All, place_desc, order_desc}
use hwala.Base.Table.{Table, lookup}
use hwala.Base.Keys.{HasKeys, filter-HasKeys}

-- One page.
abbrev pub page_rows :
    {V : Type 0} → (key : ℕ × V → ℕ) (q : ℕ × V → Bool) (limit offset : ℕ) → Table V → Table V
page_rows key q limit offset t = take limit (drop offset (order_desc key (filter q t)))

-- The next `n` pages from an offset on, one after another.
unfoldable pub pages : {A : Type 0} → (n limit offset : ℕ) → (ℕ → List A) → List A
pages zero limit offset page = []
pages (suc n) limit offset page = page offset ++ pages n limit (offset + limit) page

module _ {A : Type 0} where
  take-drop : (m n : ℕ) (xs : List A) → take m xs ++ take n (drop m xs) ≡ take (m + n) xs
  take-drop zero n xs = ap (λ m. take m xs) (omega arith)
  take-drop (suc m) zero [] = simp unary_clauses refl
  take-drop (suc m) (suc n) [] = simp unary_clauses refl
  take-drop (suc m) n (x ∷ xs) =
      let next : suc (m + n) ≡ suc m + n = omega arith in
      ap (λ ys. x ∷ ys) (take-drop m n xs) ∙ ap (λ k. take k (x ∷ xs)) next

  drop-drop : (m n : ℕ) (xs : List A) → drop n (drop m xs) ≡ drop (m + n) xs
  drop-drop zero n xs = ap (λ m. drop m xs) (omega arith)
  drop-drop (suc m) zero [] = simp unary_clauses refl
  drop-drop (suc m) (suc n) [] = simp unary_clauses refl
  drop-drop (suc m) n (x ∷ xs) =
      let next : suc (m + n) ≡ suc m + n = omega arith in
      drop-drop m n xs ∙ ap (λ k. drop k (x ∷ xs)) next

  pub take_all : (n : ℕ) (xs : List A) → length xs ≤ n → take n xs ≡ xs
  take_all zero [] h = refl
  take_all (suc n) [] h = refl
  take_all zero (x ∷ xs) h = ground arith
  take_all (suc n) (x ∷ xs) h = ap (λ ys. x ∷ ys) (take_all n xs (omega arith))

  pages-take :
      (n limit offset : ℕ) (xs : List A)
      → pages n limit offset (λ o. take limit (drop o xs)) ≡ take (n * limit) (drop offset xs)
  unfolding pages
  pages-take zero limit offset xs = ground arith
  pages-take (suc n) limit offset xs = rw (pages-take n limit (offset + limit) xs) (
      rw (sym (drop-drop offset limit xs)) (
        take-drop limit (n * limit) (drop offset xs)
        ∙ ap (λ m. take m (drop offset xs)) (ground arith)))

module _ {V : Type 0} (key : ℕ × V → ℕ) where
  length-place_desc : (x : ℕ × V) (xs : Table V) → length (place_desc key x xs) ≡ suc (length xs)
  unfolding place_desc
  length-place_desc x [] = refl
  length-place_desc x (y ∷ ys) = ground (arith, length-place_desc x ys)

  pub length-order_desc : (xs : Table V) → length (order_desc key xs) ≡ length xs
  unfolding order_desc
  length-order_desc [] = refl
  length-order_desc (x ∷ xs) =
      omega (arith, length-place_desc x (order_desc key xs), length-order_desc xs)

  lookup-place_desc :
      (k j : ℕ) (v : V) (t : Table V)
      → lookup j t ≡ none
      → lookup k (place_desc key (j, v) t) ≡ (if j == k then some v else lookup k t)
  unfolding lookup place_desc
  lookup-place_desc k j v [] h = ground arith
  lookup-place_desc k j v ((i, w) ∷ t) h = ground (arith, lookup-place_desc k j v t)

  pub lookup-order_desc :
      (k : ℕ) (t : Table V) → HasKeys t → lookup k (order_desc key t) ≡ lookup k t
  unfolding lookup order_desc
  lookup-order_desc k [] h = refl
  lookup-order_desc k ((j, w) ∷ t) h =
      lookup-place_desc k j w (order_desc key t) (lookup-order_desc j t h.1 ∙ h.0)
      ∙ ground (arith, lookup-order_desc k t h.1)

  place_desc-HasKeys :
      (j : ℕ) (v : V) (t : Table V)
      → lookup j t ≡ none
      → HasKeys t
      → HasKeys (place_desc key (j, v) t)
  unfolding lookup place_desc
  place_desc-HasKeys j v [] n h = (refl, tt)
  place_desc-HasKeys j v ((i, w) ∷ t) n h = elim (Bool-cases (leb (key (i, w)) (key (j, v)))) [
    | inl e ↦ rw e (n, h)
    | inr e ↦ rw e (
      lookup-place_desc i j v t (ground arith) ∙ ground arith,
      place_desc-HasKeys j v t (ground arith) h.1,
    )
  ]

  order_desc-HasKeys : (t : Table V) → HasKeys t → HasKeys (order_desc key t)
  unfolding lookup order_desc
  order_desc-HasKeys [] h = tt
  order_desc-HasKeys ((j, w) ∷ t) h =
      place_desc-HasKeys j w (order_desc key t) (lookup-order_desc j t h.1 ∙ h.0)
        (order_desc-HasKeys t h.1)

abbrev pub keep : {V : Type 0} → (V → Bool) → Option V → Option V
keep q none = none
keep q (some v) = if q v then some v else none

lookup-filter :
    {V : Type 0} (q : V → Bool) (k : ℕ) (t : Table V)
    → HasKeys t
    → lookup k (filter (λ (row : ℕ × V). q row.1) t) ≡ keep q (lookup k t)
unfolding lookup
lookup-filter q k [] h = refl
lookup-filter q k ((j, w) ∷ t) h = elim (Bool-cases (j == k)) [
  | inl e ↦ ground (arith, lookup-filter q k t h.1)
  | inr e ↦ ground (arith, lookup-filter q k t h.1)
]

-- No row comes before one with a higher key.
abbrev pub IsDescending : {A : Type 0} → (A → ℕ) → List A → Type 0
IsDescending key [] = Unit
IsDescending key (x ∷ xs) = All (λ y. key y ≤ key x) xs × IsDescending key xs

module _ {A : Type 0} (key : A → ℕ) where
  All-place_desc :
      (m : ℕ) (x : A) (xs : List A)
      → key x ≤ m
      → All (λ y. key y ≤ m) xs
      → All (λ y. key y ≤ m) (place_desc key x xs)
  unfolding place_desc
  All-place_desc m x [] p h = (p, tt)
  All-place_desc m x (y ∷ ys) p h = elim (Bool-cases (leb (key y) (key x))) [
    | inl e ↦ rw e (p, h)
    | inr e ↦ rw e (h.0, All-place_desc m x ys p h.1)
  ]

  All-below : (m n : ℕ) (xs : List A) → m ≤ n → All (λ y. key y ≤ m) xs → All (λ y. key y ≤ n) xs
  All-below m n [] p h = tt
  All-below m n (x ∷ xs) p h = (omega (arith, h.0), All-below m n xs p h.1)

  place_desc-IsDescending :
      (x : A) (xs : List A) → IsDescending key xs → IsDescending key (place_desc key x xs)
  unfolding place_desc
  place_desc-IsDescending x [] h = (tt, tt)
  place_desc-IsDescending x (y ∷ ys) h = elim (Bool-cases (leb (key y) (key x))) [
    | inl e ↦
        let below : key y ≤ key x = ground arith in
        rw e ((below, All-below (key y) (key x) ys below h.0), h)
    | inr e ↦
        let above : key x ≤ key y = ground arith in
        rw e (All-place_desc (key y) x ys above h.0, place_desc-IsDescending x ys h.1)
  ]

  order_desc-IsDescending : (xs : List A) → IsDescending key (order_desc key xs)
  unfolding order_desc
  order_desc-IsDescending [] = tt
  order_desc-IsDescending (x ∷ xs) =
      place_desc-IsDescending x (order_desc key xs) (order_desc-IsDescending xs)

module _ {V : Type 0} where
  -- Enough pages give the whole selection, in descending order: a row is on one of them just if it is in the table
  -- and passes the test, and then once.
  pub pages-all :
      (key : ℕ × V → ℕ) (q : V → Bool) (n limit : ℕ) (t : Table V)
      → HasKeys t
      → length (filter (λ (row : ℕ × V). q row.1) t) ≤ n * limit
      → let rows = pages n limit 0 (λ o. page_rows key (λ row. q row.1) limit o t) in
        HasKeys rows × ((k : ℕ) → lookup k rows ≡ keep q (lookup k t)) × IsDescending key rows
  pages-all key q n limit t h few =
      rw
        (pages-take n limit 0 (order_desc key (filter (λ (row : ℕ × V). q row.1) t))
          ∙ take_all (n * limit) _
              (omega (arith, length-order_desc key (filter (λ (row : ℕ × V). q row.1) t))))
        (
          order_desc-HasKeys key _ (filter-HasKeys _ t h),
          (λ k. lookup-order_desc key k _ (filter-HasKeys _ t h) ∙ lookup-filter q k t h),
          order_desc-IsDescending key _,
        )
