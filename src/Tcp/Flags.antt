-- ===== src/Tcp/Flags.antt =====
-- The control bits and the data offset of `TcpHeader`: which setter changes which getter.
use tiny_cp.Base.{
  ℕ, zero, suc, ◌+◌, ◌*◌, ◌/◌, ◌%◌, ◌^◌, ◌<◌, ◌≡◌, refl, ap, sym, ◌∙◌, Bool, true, false, arith,
  bit_and, bit_or, ltb, ◌==◌, if◌then◌else◌, htons, htons-htons, htons-lt, u16, ◌<<◌,
}
use tiny_cp.Base.Bits.{
  and_mask, or_low_high, test_bit, set_bit, test_bit-set_bit_self, test_bit-set_bit_ne, or-set_bit,
  and-set_bit, set_bit-lt,
}
use native.Mathlib.Nat.{mod-eq_of_lt, pow-le-pow_right}
use native.Mathlib.Decide.{ℕ_discrete}
use tiny_cp.Tcp.Header.{TcpHeader, flag, data_offset, set_flag, set_data_offset}

-- A control bit, as a number.
abbrev bit_of : Bool → ℕ
bit_of true = 1
bit_of false = 0

abbrev one_bit : ℕ → ℕ → Bool
one_bit k w = ltb 0 (test_bit k w)

-- The mask and the shift of `flags()` find the digit of the word.
low_digit : (k w : ℕ) → k < 6 → w % 64 / 2 ^ k % 2 ≡ test_bit k w
low_digit zero w h = omega arith
low_digit (suc zero) w h = omega arith
low_digit (suc (suc zero)) w h = omega arith
low_digit (suc (suc (suc zero))) w h = omega arith
low_digit (suc (suc (suc (suc zero)))) w h = omega arith
low_digit (suc (suc (suc (suc (suc zero))))) w h = omega arith
low_digit (suc (suc (suc (suc (suc (suc k)))))) w h = absurd (omega arith)

-- A low bit is below the data offset.
high_part : (k b w : ℕ) → k < 6 → b < 2 → set_bit k b w / 64 ≡ w / 64
high_part zero b w h hb = omega arith
high_part (suc zero) b w h hb = omega arith
high_part (suc (suc zero)) b w h hb = omega arith
high_part (suc (suc (suc zero))) b w h hb = omega arith
high_part (suc (suc (suc (suc zero)))) b w h hb = omega arith
high_part (suc (suc (suc (suc (suc zero))))) b w h hb = omega arith
high_part (suc (suc (suc (suc (suc (suc k)))))) b w h hb = absurd (omega arith)

flag-test_bit : (k : ℕ) (h : TcpHeader) → k < 6 → flag k h ≡ one_bit k (htons h.control)
unfolding flag
flag-test_bit k h lt =
    let word = htons h.control in
    ap (ltb 0) (rw (and_mask 6 word, and_mask 1 (word % 64 / 2 ^ k)) (low_digit k word lt))

bit_of-lt : (b : Bool) → bit_of b < 2
bit_of-lt true = omega arith
bit_of-lt false = omega arith

ltb-bit_of : (b : Bool) → ltb 0 (bit_of b) ≡ b
ltb-bit_of true = refl
ltb-bit_of false = refl

mask-lt : (k : ℕ) → k < 6 → u16 (2 ^ k) ≡ 2 ^ k
mask-lt k h =
    mod-eq_of_lt
      (omega (arith, pow-le-pow_right {n = 2} (omega arith) {i = k} {j = 5} (omega arith)))

-- Setting a control bit writes the digit of the word.
set_flag-set_bit :
    (k : ℕ) (b : Bool) (h : TcpHeader)
    → k < 6
    → htons (set_flag k b h).control ≡ set_bit k (bit_of b) (htons h.control)
unfolding set_flag
set_flag-set_bit k true h lt =
    let word = htons h.control in
    let fits = set_bit-lt k 16 1 word (omega arith) (omega arith) (htons-lt h.control) in
    rw (mask-lt k lt, or-set_bit k word, mod-eq_of_lt fits) (htons-htons _ fits)
set_flag-set_bit k false h lt =
    let word = htons h.control in
    let fits = set_bit-lt k 16 0 word (omega arith) (omega arith) (htons-lt h.control) in
    rw (mask-lt k lt, and-set_bit k 16 word (omega arith) (htons-lt h.control), mod-eq_of_lt fits)
      (htons-htons _ fits)

-- `set_urg` to `set_fin` put one of the six control bits to the given value and leave the other
-- five and the data offset as they were.
pub flag-set_flag :
    (j k : ℕ) (b : Bool) (h : TcpHeader)
    → j < 6
    → k < 6
    → (flag j (set_flag k b h) ≡ (if k == j then b else flag j h))
      × (data_offset (set_flag k b h) ≡ data_offset h)
unfolding data_offset
flag-set_flag j k b h hj hk =
    let word = htons h.control in
    let bit = bit_of b in
    let bit_lt = bit_of-lt b in
    let written = set_flag-set_bit k b h hk in
    let read = flag-test_bit j (set_flag k b h) hj ∙ ap (one_bit j) written in
    (
      elim (ℕ_discrete k j) [
        | yes e ↦ ground (arith, read, e, test_bit-set_bit_self j bit word bit_lt, ltb-bit_of b)
        | no ne ↦
            ground (arith, read, test_bit-set_bit_ne k j bit word bit_lt ne, flag-test_bit j h hj)
      ],
      omega (arith, written, high_part k bit word hk bit_lt),
    )

pub control-set_data_offset :
    (words : ℕ) (h : TcpHeader)
    → htons (set_data_offset words h).control ≡ words % 16 * 4096 + htons h.control % 4096
unfolding set_data_offset
control-set_data_offset words h =
    let word = htons h.control in
    let joined : bit_or (bit_and word 0x0FFF) (bit_and words 0xF << 12)
        ≡ words % 16 * 4096 + word % 4096 =
      rw (and_mask 12 word, and_mask 4 words)
        (or_low_high 12 (words % 16) (word % 4096) (omega arith)) in
    let fits : words % 16 * 4096 + word % 4096 < 2 ^ 16 = omega arith in
    rw (joined, mod-eq_of_lt fits) (htons-htons _ fits)

-- `set_data_offset` puts the header length to its low four bits and leaves the control bits as
-- they were.
pub data_offset-set_data_offset :
    (words k : ℕ) (h : TcpHeader)
    → k < 6
    → (data_offset (set_data_offset words h) ≡ words % 16)
      × (flag k (set_data_offset words h) ≡ flag k h)
unfolding data_offset
data_offset-set_data_offset words k h hk =
    let word = htons h.control in
    let written = control-set_data_offset words h in
    let same : (words % 16 * 4096 + word % 4096) % 64 ≡ word % 64 = omega arith in
    (
      omega (arith, written),
      flag-test_bit k (set_data_offset words h) hk
          ∙ ap (one_bit k) written
          ∙ ap (ltb 0)
              (sym (low_digit k _ hk) ∙ ap (λ (t : ℕ). t / 2 ^ k % 2) same ∙ low_digit k word hk)
          ∙ sym (flag-test_bit k h hk),
    )
