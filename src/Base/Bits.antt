-- ===== src/Base/Bits.antt =====
-- `&` and `|` of words that are made of bit fields, as arithmetic, at every width.
use Prim.Native.Nat.{ℕ, zero, suc, ◌+◌, ◌-◌, ◌*◌, ◌/◌, ◌%◌, ◌^◌, ◌≤◌, ◌<◌, min, max}
use Prim.Native.Nat.{bit_and, bit_or, bitwise, digits, bit_and-bitwise, bit_or-bitwise}
use mathlib.Core.Path.{◌≡◌, refl, ap, ◌∙◌}
use mathlib.Core.Logic.{◌≢◌}
use native.Mathlib.Nat.{pow-suc, one-le-pow, pow-le-pow_right}
use native.Mathlib.Omega.{arith}
use tiny_cp.Base.Word.{◌<<◌}

-- The recursion on binary digits has fuel; what is left over does not matter.
module _ (base : ℕ → ℕ) (digit : ℕ → ℕ → ℕ) where
  digits_enough : (f g a b : ℕ) → a ≤ f → a ≤ g → digits base digit f a b ≡ digits base digit g a b
  digits_enough zero zero a b p q = refl
  digits_enough zero (suc g) zero b p q = refl
  digits_enough zero (suc g) (suc a) b p q = absurd (omega arith)
  digits_enough (suc f) zero zero b p q = refl
  digits_enough (suc f) zero (suc a) b p q = absurd (omega arith)
  digits_enough (suc f) (suc g) zero b p q = refl
  digits_enough (suc f) (suc g) (suc a) b p q =
      rw (digits_enough f g (suc a / 2) (b / 2) (omega arith) (omega arith))

  bitwise_digit :
      (a b : ℕ)
      → bitwise base digit (suc a) b
        ≡ bitwise base digit (suc a / 2) (b / 2) * 2 + digit (suc a % 2) (b % 2)
  bitwise_digit a b =
      omega (arith, digits_enough a (suc a / 2) (suc a / 2) (b / 2) (omega arith) (omega arith))

or_digit : (a b : ℕ) → bit_or a b ≡ bit_or (a / 2) (b / 2) * 2 + max (a % 2) (b % 2)
or_digit zero b = simp bit_or-bitwise (omega arith)
or_digit (suc a) b = simp bit_or-bitwise (bitwise_digit (λ y. y) max a b)

and_digit : (a b : ℕ) → bit_and a b ≡ bit_and (a / 2) (b / 2) * 2 + min (a % 2) (b % 2)
and_digit zero b = simp bit_and-bitwise (omega arith)
and_digit (suc a) b = simp bit_and-bitwise (bitwise_digit (λ y. 0) min a b)

zero-or : (b : ℕ) → bit_or 0 b ≡ b
zero-or b = simp bit_or-bitwise refl

zero-and : (b : ℕ) → bit_and 0 b ≡ 0
zero-and b = simp bit_and-bitwise refl

or-zero_below : (n a : ℕ) → a ≤ n → bit_or a 0 ≡ a
or-zero_below n zero h = refl
or-zero_below zero (suc a) h = absurd (omega arith)
or-zero_below (suc n) (suc a) h =
    omega (arith, or_digit (suc a) 0, or-zero_below n (suc a / 2) (omega arith))

or-zero : (a : ℕ) → bit_or a 0 ≡ a
or-zero a = or-zero_below a a (omega arith)

and-zero_below : (n a : ℕ) → a ≤ n → bit_and a 0 ≡ 0
and-zero_below n zero h = refl
and-zero_below zero (suc a) h = absurd (omega arith)
and-zero_below (suc n) (suc a) h =
    omega (arith, and_digit (suc a) 0, and-zero_below n (suc a / 2) (omega arith))

and-zero : (a : ℕ) → bit_and a 0 ≡ 0
and-zero a = and-zero_below a a (omega arith)

double_pow : (q k : ℕ) → q * 2 ^ suc k ≡ 2 * (q * 2 ^ k)
double_pow q k = omega (arith, ap (λ (t : ℕ). q * t) (pow-suc 2 k))

-- A word is a high and a low field, and `|` works on each.
or_fields :
    (k q r q' r' : ℕ)
    → r < 2 ^ k
    → r' < 2 ^ k
    → bit_or (q * 2 ^ k + r) (q' * 2 ^ k + r') ≡ bit_or q q' * 2 ^ k + bit_or r r'
or_fields zero zero zero q' zero h h' = ground (arith, zero-or q')
or_fields zero q r q' r' h h' = ground arith
or_fields (suc k) q r q' r' h h' = ground (
  arith,
  or_digit (q * 2 ^ suc k + r) (q' * 2 ^ suc k + r'),
  or_digit r r',
  double_pow q k,
  double_pow q' k,
  double_pow (bit_or q q') k,
  pow-suc 2 k,
  or_fields k q (r / 2) q' (r' / 2),
)

-- So does `&`.
and_fields :
    (k q r q' r' : ℕ)
    → r < 2 ^ k
    → r' < 2 ^ k
    → bit_and (q * 2 ^ k + r) (q' * 2 ^ k + r') ≡ bit_and q q' * 2 ^ k + bit_and r r'
and_fields zero zero zero q' zero h h' = ground (arith, zero-and q')
and_fields zero q r q' r' h h' = ground arith
and_fields (suc k) q r q' r' h h' = ground (
  arith,
  and_digit (q * 2 ^ suc k + r) (q' * 2 ^ suc k + r'),
  and_digit r r',
  double_pow q k,
  double_pow q' k,
  double_pow (bit_and q q') k,
  pow-suc 2 k,
  and_fields k q (r / 2) q' (r' / 2),
)

-- `(q << k) | r` is a sum where `r` fits `k` bits, and so is `r | (q << k)`.
pub or_high_low : (k q r : ℕ) → r < 2 ^ k → bit_or (q << k) r ≡ q * 2 ^ k + r
or_high_low k q r h = ground (arith, one-le-pow k 2, or_fields k q 0 0 r, or-zero q, zero-or r)

pub or_low_high : (k q r : ℕ) → r < 2 ^ k → bit_or r (q << k) ≡ q * 2 ^ k + r
or_low_high k q r h = ground (arith, one-le-pow k 2, or_fields k 0 r q 0, zero-or q, or-zero r)

ones : (k r : ℕ) → r < 2 ^ k → bit_and r (2 ^ k - 1) ≡ r
ones zero r h = ground (arith, and-zero r)
ones (suc k) r h =
    ground (arith, and_digit r (2 ^ suc k - 1), one-le-pow k 2, pow-suc 2 k, ones k (r / 2))

-- A mask of `k` low ones is the remainder by `2 ^ k`.
pub and_mask : (k a : ℕ) → bit_and a (2 ^ k - 1) ≡ a % 2 ^ k
and_mask k a = ground (
  arith,
  one-le-pow k 2,
  and_fields k (a / 2 ^ k) (a % 2 ^ k) 0 (2 ^ k - 1),
  and-zero (a / 2 ^ k),
  ones k (a % 2 ^ k),
)

-- Bit `k` of a word, and the word with bit `k` put to `b`, digit by digit.
abbrev pub test_bit : ℕ → ℕ → ℕ
test_bit zero w = w % 2
test_bit (suc k) w = test_bit k (w / 2)

abbrev pub set_bit : ℕ → ℕ → ℕ → ℕ
set_bit zero b w = w / 2 * 2 + b
set_bit (suc k) b w = set_bit k b (w / 2) * 2 + w % 2

half_of_sum : (a b : ℕ) → b < 2 → ((a * 2 + b) / 2 ≡ a) × ((a * 2 + b) % 2 ≡ b)
half_of_sum a b h = omega arith

pub test_bit-set_bit_self : (k b w : ℕ) → b < 2 → test_bit k (set_bit k b w) ≡ b
test_bit-set_bit_self zero b w h = omega arith
test_bit-set_bit_self (suc k) b w h =
    let half = half_of_sum (set_bit k b (w / 2)) (w % 2) (omega arith) in
    ap (test_bit k) half.0 ∙ test_bit-set_bit_self k b (w / 2) h

pub test_bit-set_bit_ne : (k j b w : ℕ) → b < 2 → k ≢ j → test_bit j (set_bit k b w) ≡ test_bit j w
test_bit-set_bit_ne zero zero b w h ne = absurd (ne refl)
test_bit-set_bit_ne zero (suc j) b w h ne = ap (test_bit j) (half_of_sum (w / 2) b h).0
test_bit-set_bit_ne (suc k) zero b w h ne =
    (half_of_sum (set_bit k b (w / 2)) (w % 2) (omega arith)).1
test_bit-set_bit_ne (suc k) (suc j) b w h ne =
    let half = half_of_sum (set_bit k b (w / 2)) (w % 2) (omega arith) in
    ap (test_bit j) half.0 ∙ test_bit-set_bit_ne k j b (w / 2) h (λ e. ne (ap suc e))

-- `word | (1 << k)`
pub or-set_bit : (k w : ℕ) → bit_or w (2 ^ k) ≡ set_bit k 1 w
or-set_bit zero w = ground (arith, or_digit w 1, or-zero (w / 2))
or-set_bit (suc k) w = ground (arith, or_digit w (2 ^ suc k), pow-suc 2 k, or-set_bit k (w / 2))

pow-lt : (n k : ℕ) → suc k < suc n → 2 ^ k < 2 ^ n
pow-lt n k h = omega (
  arith,
  pow-le-pow_right {n = 2} (omega arith) {i = suc k} {j = n} (omega arith),
  pow-suc 2 k,
  one-le-pow k 2,
)

-- `word & ~(1 << k)` for a word of `n` bits
pub and-set_bit : (k n w : ℕ) → k < n → w < 2 ^ n → bit_and w (2 ^ n - 1 - 2 ^ k) ≡ set_bit k 0 w
and-set_bit k zero w hk hw = absurd (omega arith)
and-set_bit zero (suc n) w hk hw =
    ground (arith, and_digit w (2 ^ suc n - 1 - 1), pow-suc 2 n, one-le-pow n 2, ones n (w / 2))
and-set_bit (suc k) (suc n) w hk hw = ground (
  arith,
  and_digit w (2 ^ suc n - 1 - 2 ^ suc k),
  pow-suc 2 n,
  pow-suc 2 k,
  one-le-pow n 2,
  pow-lt n k hk,
  and-set_bit k n (w / 2),
)

pub set_bit-lt : (k n b w : ℕ) → k < n → b < 2 → w < 2 ^ n → set_bit k b w < 2 ^ n
set_bit-lt k zero b w hk hb hw = absurd (omega arith)
set_bit-lt zero (suc n) b w hk hb hw = omega (arith, pow-suc 2 n)
set_bit-lt (suc k) (suc n) b w hk hb hw =
    omega
      (arith, pow-suc 2 n, set_bit-lt k n b (w / 2) (omega arith) hb (omega (arith, pow-suc 2 n)))
