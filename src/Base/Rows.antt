-- ===== src/Base/Rows.antt =====
-- What holds of all rows of a selection (`findMany` with `where`, `orderBy`, `skip` and `take`).
use Prim.Native.Nat.{ℕ, zero, suc}
use mathlib.Core.Path.{◌≡◌}
use mathlib.Core.Logic.{inl, inr}
use mathlib.Core.Bool.{Bool, true}
use mathlib.Core.List.{List, [], ◌∷◌, map}
use hwala.Base.Tests.{leb, Bool-cases}
use hwala.Base.Lists.{All, filter, drop, place_desc, order_desc}
use hwala.Base.Table.{Table}
use hwala.Base.Keys.{All-take}
use hwala.Base.Pages.{page_rows}

pub All-imp :
    {A : Type 0} (P Q : A → Type 0) → ((x : A) → P x → Q x) → (xs : List A) → All P xs → All Q xs
All-imp P Q h [] a = tt
All-imp P Q h (x ∷ xs) (p, a) = (h x p, All-imp P Q h xs a)

-- A selection has rows that pass the test alone.
pub filter-All :
    {A : Type 0} (P : A → Type 0) (q : A → Bool)
    → ((x : A) → q x ≡ true → P x)
    → (xs : List A) → All P (filter q xs)
filter-All P q h [] = tt
filter-All P q h (x ∷ xs) = elim (Bool-cases (q x)) [
  | inl e ↦ rw e (h x e, filter-All P q h xs)
  | inr e ↦ rw e (filter-All P q h xs)
]

module _ {A : Type 0} (P : A → Type 0) where
  All-drop : (n : ℕ) (xs : List A) → All P xs → All P (drop n xs)
  All-drop zero xs h = h
  All-drop (suc n) [] h = tt
  All-drop (suc n) (x ∷ xs) h = All-drop n xs h.1

  place_desc-All :
      (key : A → ℕ) (x : A) (xs : List A) → P x → All P xs → All P (place_desc key x xs)
  unfolding place_desc
  place_desc-All key x [] p h = (p, tt)
  place_desc-All key x (y ∷ ys) p h = elim (Bool-cases (leb (key y) (key x))) [
    | inl e ↦ rw e (p, h)
    | inr e ↦ rw e (h.0, place_desc-All key x ys p h.1)
  ]

  pub order_desc-All : (key : A → ℕ) (xs : List A) → All P xs → All P (order_desc key xs)
  unfolding order_desc
  order_desc-All key [] h = tt
  order_desc-All key (x ∷ xs) (p, h) =
      place_desc-All key x (order_desc key xs) p (order_desc-All key xs h)

pub page_rows-All :
    {V : Type 0} (P : ℕ × V → Type 0) (key : ℕ × V → ℕ) (q : ℕ × V → Bool) (limit offset : ℕ)
    → ((row : ℕ × V) → q row ≡ true → P row)
    → (t : Table V) → All P (page_rows key q limit offset t)
page_rows-All P key q limit offset h t =
    All-take P limit _ (All-drop P offset _ (order_desc-All P key _ (filter-All P q h t)))

-- … of rows of a table of which something holds already.
pub page_rows-All-of :
    {V : Type 0} (P Q : ℕ × V → Type 0) (key : ℕ × V → ℕ) (q : ℕ × V → Bool) (limit offset : ℕ)
    → ((row : ℕ × V) → q row ≡ true → Q row → P row)
    → (t : Table V) → All Q t
    → All P (page_rows key q limit offset t)
page_rows-All-of {V} P Q key q limit offset h t of =
    All-take P limit _ (All-drop P offset _ (order_desc-All P key _ (selected t of)))
  where
    selected : (xs : Table V) → All Q xs → All P (filter q xs)
    selected [] p = tt
    selected (x ∷ xs) (p, ps) = elim (Bool-cases (q x)) [
      | inl e ↦ rw e (h x e p, selected xs ps)
      | inr e ↦ rw e (selected xs ps)
    ]

pub map-All :
    {A B : Type 0} (P : A → Type 0) (Q : B → Type 0) (f : A → B)
    → ((a : A) → P a → Q (f a))
    → (xs : List A) → All P xs
    → All Q (map f xs)
map-All P Q f h [] p = tt
map-All P Q f h (x ∷ xs) (p, ps) = (h x p, map-All P Q f h xs ps)
