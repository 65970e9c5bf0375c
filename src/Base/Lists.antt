-- ===== src/Base/Lists.antt =====
-- Functions on lists that count by native numbers, with Boolean tests.
use Prim.Native.Nat.{ℕ, suc, zero, ◌+◌}
use mathlib.Core.Path.{◌≡◌}
use mathlib.Core.Bool.{Bool, true, false}
use mathlib.Core.Option.{Option, none, some}
use mathlib.Core.List.{List, [], ◌∷◌, ◌++◌}
use native.Mathlib.Omega.{arith}
use hwala.Base.Tests.{leb, if◌then◌else◌}

module _ {ℓ} {A : Type ℓ} where
  abbrev pub length : List A → ℕ
  length [] = 0
  length (x ∷ xs) = suc (length xs)

  abbrev pub take : ℕ → List A → List A
  take zero xs = []
  take (suc n) [] = []
  take (suc n) (x ∷ xs) = x ∷ take n xs

  abbrev pub filter : (A → Bool) → List A → List A
  filter p [] = []
  filter p (x ∷ xs) = let rest = filter p xs in if p x then x ∷ rest else rest

  abbrev pub find : (A → Bool) → List A → Option A
  find p [] = none
  find p (x ∷ xs) = let rest = find p xs in if p x then some x else rest

  abbrev pub every : (A → Bool) → List A → Bool
  every p [] = true
  every p (x ∷ xs) = let rest = every p xs in if p x then rest else false

  abbrev pub All {κ} : (A → Type κ) → List A → Type κ
  All P [] = Unit
  All P (x ∷ xs) = P x × All P xs

  pub All-append {κ} : (P : A → Type κ) (xs ys : List A) → All P xs → All P ys → All P (xs ++ ys)
  All-append P [] ys h k = k
  All-append P (x ∷ xs) ys h k = (h.0, All-append P xs ys h.1 k)

  pub length-append : (xs ys : List A) → length (xs ++ ys) ≡ length xs + length ys
  length-append [] ys = omega arith
  length-append (x ∷ xs) ys = omega (arith, length-append xs ys)

-- `orderBy`: rows in the order of a key; rows with equal keys keep their table order.
module _ {ℓ} {A : Type ℓ} (key : A → ℕ) where
  unfoldable pub place_asc : A → List A → List A
  place_asc x [] = x ∷ []
  place_asc x (y ∷ ys) =
      let rest = place_asc x ys in if leb (key x) (key y) then x ∷ y ∷ ys else y ∷ rest

  unfoldable pub order_asc : List A → List A
  unfolding place_asc
  order_asc [] = []
  order_asc (x ∷ xs) = place_asc x (order_asc xs)

  unfoldable pub place_desc : A → List A → List A
  place_desc x [] = x ∷ []
  place_desc x (y ∷ ys) =
      let rest = place_desc x ys in if leb (key y) (key x) then x ∷ y ∷ ys else y ∷ rest

  unfoldable pub order_desc : List A → List A
  unfolding place_desc
  order_desc [] = []
  order_desc (x ∷ xs) = place_desc x (order_desc xs)

module _ {ℓ} {A : Type ℓ} where
  -- `skip`
  abbrev pub drop : ℕ → List A → List A
  drop zero xs = xs
  drop (suc n) [] = []
  drop (suc n) (x ∷ xs) = drop n xs
