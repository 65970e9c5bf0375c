-- ===== src/Transfer/Fee.antt =====
-- The fee of a transfer (`executeTransfer` of src/transfer/transfer.service.ts). Amounts are whole cents
-- and the percentage a whole number of ten-thousandths, so the product is exact in millionths of a
-- unit; `toFixed(2)` rounds it to the nearest cent, a tie away from zero. The binary error of
-- `number` is left out.
use hwala.Base.{ℕ, suc, ◌+◌, ◌/◌}
use hwala.Base.Int.{ℤ, pos, negsuc, ◌+ℤ◌, ◌*ℤ◌, neg}
use hwala.Db.{Tenant}

abbrev pub unit : ℕ
unit = 10000

-- `Number(x.toFixed(2))`, from hundredths of a ten-thousandth to hundredths.
unfoldable pub to_fixed : ℤ → ℤ
to_fixed (pos n) = pos ((n + 5000) / unit)
to_fixed (negsuc n) = neg (pos ((suc n + 5000) / unit))

-- `Math.max(0, x)`
unfoldable pub max_zero : ℤ → ℤ
max_zero (pos n) = pos n
max_zero (negsuc n) = pos 0

-- `feeFixed + amount * feePercentage`
unfoldable pub calculated_fee : Tenant → ℤ → ℤ
calculated_fee t amount = t.fee_fixed *ℤ pos unit +ℤ amount *ℤ t.fee_percentage

unfoldable pub total_fee : Tenant → ℤ → ℤ
unfolding to_fixed max_zero calculated_fee
total_fee t amount = max_zero (to_fixed (calculated_fee t amount))
