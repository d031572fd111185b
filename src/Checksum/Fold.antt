-- ===== src/Checksum/Fold.antt =====
-- The carry loop ends, and keeps the sum modulo 2 ^ 16 - 1.
use tiny_cp.Base.{ℕ, ◌+◌, ◌-◌, ◌%◌, ◌/◌, ◌^◌, ◌<◌, ◌≤◌, ◌≡◌, arith}
use tiny_cp.Base.Bits.{and_mask}
use tiny_cp.Checksum.{fold_carries, fold_rounds, complement}

-- Two rounds are enough for every `uint32_t`: the loop's test fails after them, so that more
-- fuel would change nothing.
pub fold_carries-lt : (sum : ℕ) → sum < 2 ^ 32 → fold_carries fold_rounds sum < 2 ^ 16
unfolding fold_carries
fold_carries-lt sum h = ground (arith, and_mask 16 sum, and_mask 16 (sum % 65536 + sum / 65536))

-- Folding does not change the sum in one's complement arithmetic.
pub fold_carries-mod : (sum : ℕ) → sum < 2 ^ 32 → fold_carries fold_rounds sum % 65535 ≡ sum % 65535
unfolding fold_carries
fold_carries-mod sum h = ground (arith, and_mask 16 sum, and_mask 16 (sum % 65536 + sum / 65536))

-- A sum that is not zero folds to a word that is not zero.
pub fold_carries-pos : (sum : ℕ) → sum < 2 ^ 32 → 0 < sum → 0 < fold_carries fold_rounds sum
unfolding fold_carries
fold_carries-pos sum h = ground (arith, and_mask 16 sum, and_mask 16 (sum % 65536 + sum / 65536))

pub complement_lem : (sum : ℕ) → sum < 2 ^ 16 → complement sum ≡ 65535 - sum
unfolding complement
complement_lem sum h = omega (arith, and_mask 16 (2 ^ 32 - 1 - sum))

pub fold_carries-le : (sum : ℕ) → sum < 2 ^ 32 → fold_carries fold_rounds sum ≤ sum
unfolding fold_carries
fold_carries-le sum h = ground (arith, and_mask 16 sum, and_mask 16 (sum % 65536 + sum / 65536))
