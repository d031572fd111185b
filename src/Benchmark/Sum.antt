-- ===== src/Benchmark/Sum.antt =====
-- `FastChecksum` over a stream that is cut into chunks, and of a stream with one wrong byte.
use tiny_cp.Base.{ℕ, ◌+◌, ◌*◌, ◌^◌, ◌<◌, ◌≡◌, refl, sym, ◌∙◌, arith, List, [], ◌∷◌, ◌++◌, u32}
use tiny_cp.Benchmark.{fast_checksum}

-- The checksum of a stream is that of its second part, seeded with that of its first.
pub fast_checksum-append :
    (xs ys : List ℕ) (sum : ℕ)
    → fast_checksum (xs ++ ys) sum ≡ fast_checksum ys (fast_checksum xs sum)
unfolding fast_checksum
fast_checksum-append [] ys sum = refl
fast_checksum-append (x ∷ xs) ys sum = fast_checksum-append xs ys (u32 (sum * 31 + x))

pub fast_checksum-lt : (xs : List ℕ) (sum : ℕ) → sum < 2 ^ 32 → fast_checksum xs sum < 2 ^ 32
unfolding fast_checksum
fast_checksum-lt [] sum h = h
fast_checksum-lt (x ∷ xs) sum h = fast_checksum-lt xs (u32 (sum * 31 + x)) (omega arith)

-- 31 is odd: a step loses nothing of the sum.
step_injective : (s t b : ℕ) → s < 2 ^ 32 → t < 2 ^ 32 → u32 (s * 31 + b) ≡ u32 (t * 31 + b) → s ≡ t
step_injective s t b hs ht e = omega arith

fast_checksum_injective :
    (xs : List ℕ) (s t : ℕ)
    → s < 2 ^ 32
    → t < 2 ^ 32
    → fast_checksum xs s ≡ fast_checksum xs t
    → s ≡ t
unfolding fast_checksum
fast_checksum_injective [] s t hs ht e = e
fast_checksum_injective (x ∷ xs) s t hs ht e =
    step_injective s t x hs ht (
      fast_checksum_injective xs (u32 (s * 31 + x)) (u32 (t * 31 + x)) (omega arith) (omega arith)
        e)

byte_injective : (s x y : ℕ) → x < 256 → y < 256 → u32 (s * 31 + x) ≡ u32 (s * 31 + y) → x ≡ y
byte_injective s x y hx hy e = omega arith

-- Streams that differ in one byte only have different checksums.
pub fast_checksum_detects :
    (xs ys : List ℕ) (x y sum : ℕ)
    → x < 256
    → y < 256
    → fast_checksum (xs ++ (x ∷ ys)) sum ≡ fast_checksum (xs ++ (y ∷ ys)) sum
    → x ≡ y
unfolding fast_checksum
fast_checksum_detects xs ys x y sum hx hy e =
    let before = fast_checksum xs sum in
    let apart =
      sym (fast_checksum-append xs (x ∷ ys) sum) ∙ e ∙ fast_checksum-append xs (y ∷ ys) sum in
    byte_injective before x y hx hy (
      fast_checksum_injective ys (u32 (before * 31 + x)) (u32 (before * 31 + y)) (omega arith)
        (omega arith) apart)
