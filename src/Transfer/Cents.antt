-- ===== src/Transfer/Cents.antt =====
-- What amounts with a fraction of a cent do to the balances (`executeTransfer` of src/transfer/transfer.service.ts, without
-- a fee): the DTO of a transfer lets them through, and a column of prisma/schema.prisma holds whole cents. An amount is in
-- thousandths of a cent here, a balance in cents; `store` is what the database puts into a column with two decimals.
use hwala.Base.{
  ℕ, suc, ◌+◌, ◌-◌, ◌*◌, ◌≤◌, ◌<◌, ◌≡◌, ap, ◌∙◌, Bool-cases, inl, inr, arith, leb, ◌==◌,
  if◌then◌else◌,
}
use hwala.Base.Int.{ℤ, pos, ◌+ℤ◌, ◌-ℤ◌, int_laws}

-- `n` cents and `r` thousandths.
abbrev pub thousandths : (n r : ℕ) → ℕ
thousandths n r = 1000 * n + r

-- To the nearest cent, a tie away from zero.
abbrev pub nearest : (n r : ℕ) → ℕ
nearest n r = if leb 500 r then suc n else n

-- What `numeric(12, 2)` does to an amount that fits.
abbrev pub IsColumn : (ℤ → ℤ) → Type 0
IsColumn store = (n r : ℕ) → r < 1000 → store (pos (thousandths n r)) ≡ pos (nearest n r)

pos_add : (a b : ℕ) → pos a +ℤ pos b ≡ pos (a + b)
pos_add a b = omega int_laws

cents :
    (b c n r : ℕ)
    → r < 1000
    → thousandths n r ≤ thousandths b 0
    → b - (if leb r 500 then n else suc n) + (c + nearest n r) ≡ b + c + (if r == 500 then 1 else 0)
cents b c n r h covered = ground arith

module _ (store : ℤ → ℤ) where
  -- `balance: { decrement: amount }` and `balance: { increment: amount }`.
  unfoldable pub decremented : (balance amount : ℕ) → ℤ
  decremented balance amount = store (pos (thousandths balance 0) -ℤ pos amount)

  unfoldable pub incremented : (balance amount : ℕ) → ℤ
  incremented balance amount = store (pos (thousandths balance amount))

  incremented-column :
      (c n r : ℕ)
      → IsColumn store
      → r < 1000
      → incremented c (thousandths n r) ≡ pos (c + nearest n r)
  unfolding incremented
  incremented-column c n r column h =
      let same : thousandths c (thousandths n r) ≡ thousandths (c + n) r = omega arith in
      rw same (rw (column (c + n) r h) (ground arith))

  decremented-column :
      (b n r : ℕ)
      → IsColumn store
      → r < 1000
      → thousandths n r ≤ thousandths b 0
      → decremented b (thousandths n r) ≡ pos (b - (if leb r 500 then n else suc n))
  unfolding decremented
  decremented-column b n r column h covered = elim (Bool-cases (r == 0)) [
    | inl e ↦
        let z : r ≡ 0 = ground arith in
        let left : pos (thousandths b 0) -ℤ pos (thousandths n r) ≡ pos (thousandths (b - n) 0) =
          omega (int_laws, z) in
        rw left (rw (column (b - n) 0 (omega arith)) (ground (arith, z)))
    | inr e ↦
        let z : 1 ≤ r = ground arith in
        let left : pos (thousandths b 0) -ℤ pos (thousandths n r)
            ≡ pos (thousandths (b - n - 1) (1000 - r)) =
          omega (int_laws, z) in
        rw left (rw (column (b - n - 1) (1000 - r) (ground (arith, z))) (ground (arith, z)))
  ]

  -- If the database rounds to the nearest cent, a tie away from zero, then a transfer without a fee whose amount the
  -- sender's balance covers leaves the money of its two accounts as it is, unless the amount ends in exactly half a cent:
  -- then it is a cent more, since the sender's balance and the receiver's are both rounded up.
  pub transfer-half_cent :
      (b c n r : ℕ)
      → IsColumn store
      → r < 1000
      → thousandths n r ≤ thousandths b 0
      → decremented b (thousandths n r) +ℤ incremented c (thousandths n r)
        ≡ pos (b + c + (if r == 500 then 1 else 0))
  transfer-half_cent b c n r column h covered = rw (decremented-column b n r column h covered) (
      rw (incremented-column c n r column h) (
        pos_add (b - (if leb r 500 then n else suc n)) (c + nearest n r)
        ∙ ap pos (cents b c n r h covered)))
