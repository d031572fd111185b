-- ===== src/Wire.antt =====
-- The `BE16` and `BE32` helpers that both packet views declare: a word in network byte order at an
-- offset of a span of bytes. A span is the list of its bytes.
use tiny_cp.Base.{
  ℕ, ◌+◌, ◌*◌, ◌^◌, ◌<◌, ◌≡◌, arith, bit_or, ◌/◌, ◌%◌, htons, htonl, u16, u32, ◌<<◌, List, get_or,
}
use tiny_cp.Base.Bits.{or_high_low}

-- The callers read inside the span: their `valid` tests the size first.
unfoldable pub be16 : List ℕ → ℕ → ℕ
be16 bytes offset = u16 (bit_or (u16 (get_or bytes offset 0) << 8) (get_or bytes (offset + 1) 0))

unfoldable pub be32 : List ℕ → ℕ → ℕ
be32 bytes offset = u32 (
    bit_or
      (bit_or (bit_or (get_or bytes offset 0 << 24) (get_or bytes (offset + 1) 0 << 16))
        (get_or bytes (offset + 2) 0 << 8))
      (get_or bytes (offset + 3) 0))

pub be16-lt : (bytes : List ℕ) (offset : ℕ) → be16 bytes offset < 2 ^ 16
unfolding be16
be16-lt bytes offset = omega arith

pub be32-lt : (bytes : List ℕ) (offset : ℕ) → be32 bytes offset < 2 ^ 32
unfolding be32
be32-lt bytes offset = omega arith

be16_of_bytes : (a b : ℕ) → a < 256 → b < 256 → u16 (bit_or (u16 a << 8) b) ≡ a * 256 + b
be16_of_bytes a b ha hb = ground (arith, or_high_low 8 a b)

pub or_of_bytes :
    (a b c d : ℕ)
    → a < 256
    → b < 256
    → c < 256
    → d < 256
    → bit_or (bit_or (bit_or (a << 24) (b << 16)) (c << 8)) d
      ≡ a * 2 ^ 24 + b * 2 ^ 16 + c * 256 + d
or_of_bytes a b c d ha hb hc hd =
    let first : bit_or (a << 24) (b << 16) ≡ (a * 256 + b) << 16 =
      omega (arith, or_high_low 24 a (b << 16) (omega arith)) in
    let second : bit_or ((a * 256 + b) << 16) (c << 8) ≡ (a * 65536 + b * 256 + c) << 8 =
      omega (arith, or_high_low 16 (a * 256 + b) (c << 8) (omega arith)) in
    let third = or_high_low 8 (a * 65536 + b * 256 + c) d hd in
    rw (first, second, third) (omega arith)

be32_of_bytes :
    (a b c d : ℕ)
    → a < 256
    → b < 256
    → c < 256
    → d < 256
    → u32 (bit_or (bit_or (bit_or (a << 24) (b << 16)) (c << 8)) d)
      ≡ a * 2 ^ 24 + b * 2 ^ 16 + c * 256 + d
be32_of_bytes a b c d ha hb hc hd = rw (or_of_bytes a b c d ha hb hc hd) (omega arith)

-- A word that lies in memory in network order, lowest byte first, is read as its swap.
pub be16_of_swap : (x : ℕ) → u16 (bit_or (u16 (x % 256) << 8) (x / 256 % 256)) ≡ htons x
unfolding htons
be16_of_swap x = be16_of_bytes (x % 256) (x / 256 % 256) (omega arith) (omega arith)

pub be32_of_swap :
    (x : ℕ)
    → u32 (
        bit_or
          (bit_or (bit_or ((x % 256) << 24) ((x / 256 % 256) << 16)) ((x / 2 ^ 16 % 256) << 8))
          (x / 2 ^ 24 % 256))
      ≡ htonl x
unfolding htonl
be32_of_swap x =
    be32_of_bytes (x % 256) (x / 256 % 256) (x / 2 ^ 16 % 256) (x / 2 ^ 24 % 256) (omega arith)
      (omega arith) (omega arith) (omega arith)
