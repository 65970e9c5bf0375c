-- ===== src/Base/Table.antt =====
-- Tables: the rows of a database table with their primary keys, in table order.
use Prim.Native.Nat.{ℕ}
use mathlib.Core.Path.{◌≡◌, refl}
use mathlib.Core.Option.{Option, none, some}
use mathlib.Core.List.{List, [], ◌∷◌}
use native.Mathlib.Omega.{arith}
use hwala.Base.Tests.{◌==◌, if◌then◌else◌}
use hwala.Base.Int.{ℤ, pos, ◌+ℤ◌, ◌-ℤ◌, int_laws}

abbrev pub Table {ℓ} : Type ℓ → Type ℓ
Table V = List (ℕ × V)

module _ {ℓ} {V : Type ℓ} where
  -- The row with a primary key.
  unfoldable pub lookup : ℕ → Table V → Option V
  lookup k [] = none
  lookup k ((j, v) ∷ t) = if j == k then some v else lookup k t

  -- Writes the row with a key; a new row comes last.
  unfoldable pub insert : ℕ → V → Table V → Table V
  insert k v [] = (k, v) ∷ []
  insert k v ((j, w) ∷ t) = if j == k then (k, v) ∷ t else (j, w) ∷ insert k v t

  -- Removes the row with a key.
  unfoldable pub erase : ℕ → Table V → Table V
  erase k [] = []
  erase k ((j, w) ∷ t) = let rest = erase k t in if j == k then rest else (j, w) ∷ rest

  pub lookup-insert :
      (k j : ℕ) (v : V) (t : Table V)
      → lookup j (insert k v t) ≡ (if k == j then some v else lookup j t)
  unfolding lookup insert
  lookup-insert k j v [] = refl
  lookup-insert k j v ((i, w) ∷ t) = ground (arith, lookup-insert k j v t)

  pub lookup-erase :
      (k j : ℕ) (t : Table V) → lookup j (erase k t) ≡ (if k == j then none else lookup j t)
  unfolding lookup erase
  lookup-erase k j [] = ground arith
  lookup-erase k j ((i, w) ∷ t) = ground (arith, lookup-erase k j t)

  -- The sum of a measure over all rows.
  unfoldable pub total : (V → ℤ) → Table V → ℤ
  total f [] = pos 0
  total f ((k, v) ∷ t) = f v +ℤ total f t

  pub total-insert :
      (f : V → ℤ) (k : ℕ) (v old : V) (t : Table V)
      → lookup k t ≡ some old
      → total f (insert k v t) ≡ total f t +ℤ f v -ℤ f old
  unfolding lookup insert total
  total-insert f k v old [] e = cc
  total-insert f k v old ((j, w) ∷ t) e = grind (int_laws, total-insert f k v old t)

  pub total-insert_new :
      (f : V → ℤ) (k : ℕ) (v : V) (t : Table V)
      → lookup k t ≡ none
      → total f (insert k v t) ≡ total f t +ℤ f v
  unfolding lookup insert total
  total-insert_new f k v [] e = omega int_laws
  total-insert_new f k v ((j, w) ∷ t) e = grind (int_laws, total-insert_new f k v t)
