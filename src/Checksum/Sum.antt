-- ===== src/Checksum/Sum.antt =====
-- The sum of the 16-bit words of a buffer, as a number that does not wrap.
use tiny_cp.Base.{
  ℕ, zero, suc, ◌+◌, ◌*◌, ◌%◌, ◌^◌, ◌<◌, ◌≤◌, ◌≡◌, arith, List, [], ◌∷◌, ◌++◌, length, u32, bytes32,
}
use tiny_cp.Base.Bits.{or_high_low}
use tiny_cp.Checksum.{word, sum_words, sum_address, sum_segment}

-- Every byte of the buffer is one.
abbrev pub IsBytes : List ℕ → Type 0
IsBytes [] = Unit {0}
IsBytes (b ∷ bs) = (b < 256) × IsBytes bs

-- The words of a buffer added up, in network byte order, the last odd byte padded on the right.
abbrev pub total : List ℕ → ℕ
total [] = 0
total (a ∷ []) = a * 256
total (a ∷ b ∷ rest) = a * 256 + b + total rest

word_lem : (a b : ℕ) → a < 256 → b < 256 → word a b ≡ a * 256 + b
word_lem a b ha hb = ground (arith, or_high_low 8 a b)

sum_words-total :
    (sum : ℕ) (bs : List ℕ) → IsBytes bs → sum_words sum bs % 2 ^ 32 ≡ (sum + total bs) % 2 ^ 32
unfolding sum_words
sum_words-total sum [] h = omega arith
sum_words-total sum (a ∷ []) h = omega arith
sum_words-total sum (a ∷ b ∷ rest) h =
    omega (arith, word_lem a b h.0 h.1.0, sum_words-total (u32 (sum + word a b)) rest h.1.1)

sum_words-lt : (sum : ℕ) (bs : List ℕ) → sum < 2 ^ 32 → sum_words sum bs < 2 ^ 32
unfolding sum_words
sum_words-lt sum [] h = h
sum_words-lt sum (a ∷ []) h = omega arith
sum_words-lt sum (a ∷ b ∷ rest) h = sum_words-lt (u32 (sum + word a b)) rest (omega arith)

-- A sum that fits 32 bits is computed without a wrap.
pub sum_words_exact :
    (sum : ℕ) (bs : List ℕ)
    → IsBytes bs
    → sum + total bs < 2 ^ 32
    → sum_words sum bs ≡ sum + total bs
sum_words_exact sum bs h fits =
    omega (arith, sum_words-total sum bs h, sum_words-lt sum bs (omega arith))

-- Words do not reach over an even boundary.
pub total-append :
    (n : ℕ) (xs ys : List ℕ) → length xs ≡ n + n → total (xs ++ ys) ≡ total xs + total ys
total-append zero [] ys h = omega arith
total-append zero (x ∷ xs) ys h = absurd (omega arith)
total-append (suc n) [] ys h = absurd (omega arith)
total-append (suc n) (x ∷ []) ys h = absurd (omega arith)
total-append (suc n) (x ∷ y ∷ xs) ys h = omega (arith, total-append n xs ys (omega arith))

pub total-le : (bs : List ℕ) → IsBytes bs → 2 * total bs ≤ 65535 * (length bs + 1)
total-le [] h = omega arith
total-le (a ∷ []) h = omega arith
total-le (a ∷ b ∷ rest) h = omega (arith, total-le rest h.1.1)

pub IsBytes-append : (xs ys : List ℕ) → IsBytes xs → IsBytes ys → IsBytes (xs ++ ys)
IsBytes-append [] ys hx hy = hy
IsBytes-append (x ∷ xs) ys hx hy = (hx.0, IsBytes-append xs ys hx.1 hy)

bytes32-IsBytes : (x : ℕ) → IsBytes (bytes32 x)
unfolding bytes32
bytes32-IsBytes x = omega arith

pub total-bytes32-le : (x : ℕ) → total (bytes32 x) ≤ 131070
unfolding bytes32
total-bytes32-le x = omega arith

-- The sum over a segment, where it fits: the pseudo-header is the two addresses, the protocol
-- number and the length.
pub sum_segment_exact :
    (src dst : ℕ) (header payload : List ℕ)
    → IsBytes header
    → IsBytes payload
    → length header + length payload < 2 ^ 16
    → sum_segment src dst header payload
      ≡ total (bytes32 src)
        + total (bytes32 dst)
        + 6
        + (length header + length payload)
        + total header
        + total payload
unfolding sum_segment sum_address
sum_segment_exact src dst header payload hh hp fits =
    let src_le = total-bytes32-le src in
    let dst_le = total-bytes32-le dst in
    let header_le = total-le header hh in
    let payload_le = total-le payload hp in
    let first = sum_words_exact 0 (bytes32 src) (bytes32-IsBytes src) (omega arith) in
    let second =
      sum_words_exact (sum_words 0 (bytes32 src)) (bytes32 dst) (bytes32-IsBytes dst)
        (omega arith) in
    let addresses = sum_words (sum_words 0 (bytes32 src)) (bytes32 dst) in
    let pseudo = u32 (u32 (addresses + 6 % 2 ^ 16) + (length header + length payload) % 2 ^ 16) in
    let third = sum_words_exact pseudo header hh (omega arith) in
    let fourth = sum_words_exact (sum_words pseudo header) payload hp (omega arith) in omega arith
