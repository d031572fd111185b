-- ===== src/Checksum/Verify.antt =====
-- What a receiver finds who runs the same sum over what the sender wrote.
use tiny_cp.Base.{
  ℕ, ◌+◌, ◌*◌, ◌%◌, ◌/◌, ◌^◌, ◌<◌, ◌≤◌, ◌≡◌, ap, ◌∙◌, arith, List, [], ◌∷◌, ◌++◌, length,
  length-append,
}
use tiny_cp.Checksum.{
  sum_words, sum_segment, fold_carries, fold_rounds, complement, ones_complement_checksum,
  compute_tcp_checksum,
}
use tiny_cp.Checksum.Fold.{
  fold_carries-lt, fold_carries-mod, fold_carries-pos, fold_carries-le, complement_lem,
}
use tiny_cp.Checksum.Sum.{
  IsBytes, total, sum_words_exact, sum_segment_exact, total-append, total-le, IsBytes-append,
  total-bytes32-le,
}

-- The last step of both routines.
finish : ℕ → ℕ
finish sum = complement (fold_carries fold_rounds sum)

finish-lt : (sum : ℕ) → sum < 2 ^ 32 → finish sum < 2 ^ 16
unfolding finish
finish-lt sum h = omega (
  arith,
  fold_carries-lt sum h,
  complement_lem (fold_carries fold_rounds sum) (fold_carries-lt sum h),
)

-- A sum that takes in its own complement folds to all ones.
finish_cancels : (sum : ℕ) → sum + 65535 < 2 ^ 32 → finish (sum + finish sum) ≡ 0
unfolding finish
finish_cancels sum h =
    let own = fold_carries-lt sum (omega arith) in
    let own_mod = fold_carries-mod sum (omega arith) in
    let own_pos = fold_carries-pos sum (omega arith) in
    let own_le = fold_carries-le sum (omega arith) in
    let own_comp = complement_lem (fold_carries fold_rounds sum) own in
    let whole = sum + complement (fold_carries fold_rounds sum) in
    let lt = fold_carries-lt whole (omega arith) in
    let same = fold_carries-mod whole (omega arith) in
    let positive = fold_carries-pos whole (omega arith) in
    let comp = complement_lem (fold_carries fold_rounds whole) lt in omega arith

-- The bytes of a word in network order.
abbrev pub big_endian16 : ℕ → List ℕ
big_endian16 x = x / 256 ∷ x % 256 ∷ []

-- The buffer with a word at an even place: `before`, the word, `after`.
abbrev pub with_word : List ℕ → ℕ → List ℕ → List ℕ
with_word before x after = before ++ (big_endian16 x ++ after)

total-with_word :
    (n x : ℕ) (before after : List ℕ)
    → length before ≡ n + n
    → total (with_word before x after) ≡ total before + (x / 256 * 256 + x % 256 + total after)
total-with_word n x before after h = total-append n before (big_endian16 x ++ after) h

IsBytes-with_word :
    (x : ℕ) (before after : List ℕ)
    → x < 2 ^ 16
    → IsBytes before
    → IsBytes after
    → IsBytes (with_word before x after)
IsBytes-with_word x before after h hb ha =
    IsBytes-append before (big_endian16 x ++ after) hb (omega arith, (omega arith, ha))

-- A checksum is a 16-bit word.
pub ones_complement_checksum-lt :
    (bs : List ℕ) → IsBytes bs → length bs ≤ 65535 → ones_complement_checksum bs < 2 ^ 16
unfolding ones_complement_checksum finish
ones_complement_checksum-lt bs h fits =
    let bound = total-le bs h in finish-lt (sum_words 0 bs) (omega (arith, sum_words_exact 0 bs h))

-- A buffer whose checksum word, at an even place, holds the checksum over the buffer with that
-- word zero has the checksum zero.
pub ones_complement_checksum_verifies :
    (n : ℕ) (before after : List ℕ)
    → length before ≡ n + n
    → IsBytes before
    → IsBytes after
    → length before + length after ≤ 65533
    → ones_complement_checksum
        (with_word before (ones_complement_checksum (with_word before 0 after)) after)
      ≡ 0
unfolding ones_complement_checksum complement finish
ones_complement_checksum_verifies n before after even hb ha fits =
    let zeros = with_word before 0 after in
    let zeros_bytes = IsBytes-with_word 0 before after (omega arith) hb ha in
    let zeros_total = total-with_word n 0 before after even in
    let zeros_length : length zeros ≤ 65535 = omega (arith, length-append before (0 ∷ 0 ∷ after)) in
    let zeros_le = total-le zeros zeros_bytes in
    let sum = total zeros in
    let zeros_sum : sum_words 0 zeros ≡ sum =
      omega (arith, sum_words_exact 0 zeros zeros_bytes (omega arith)) in
    let check = finish sum in
    let check_lt = finish-lt sum (omega arith) in
    let whole = with_word before check after in
    let whole_bytes = IsBytes-with_word check before after check_lt hb ha in
    let whole_total = total-with_word n check before after even in
    let whole_sum : sum_words 0 whole ≡ sum + check =
      omega (arith, sum_words_exact 0 whole whole_bytes (omega arith)) in
    ap (λ s. finish (sum_words 0 (with_word before (finish s) after))) zeros_sum
    ∙ ap finish whole_sum
    ∙ finish_cancels sum (omega arith)

-- The same for a segment, with its pseudo-header and a header of even length: a receiver who runs the
-- checksum over a header that holds the computed word, at an even place, gets zero. The header and
-- the payload are bytes, at most 65535 together.
pub compute_tcp_checksum_verifies :
    (n m src dst : ℕ) (before after payload : List ℕ)
    → length before ≡ n + n
    → length after ≡ m + m
    → IsBytes before
    → IsBytes after
    → IsBytes payload
    → length before + length after + length payload ≤ 65533
    → compute_tcp_checksum src dst
        (with_word before (compute_tcp_checksum src dst (with_word before 0 after) payload) after)
        payload
      ≡ 0
unfolding compute_tcp_checksum finish
compute_tcp_checksum_verifies n m src dst before after payload even even_after hb ha hp fits =
    let zeros = with_word before 0 after in
    let zeros_bytes = IsBytes-with_word 0 before after (omega arith) hb ha in
    let zeros_length : length zeros ≡ length before + length after + 2 =
      omega (arith, length-append before (0 ∷ 0 ∷ after)) in
    let zeros_le = total-le zeros zeros_bytes in
    let payload_le = total-le payload hp in
    let src_le = total-bytes32-le src in
    let dst_le = total-bytes32-le dst in
    let zeros_total = total-with_word n 0 before after even in
    let sum = sum_segment src dst zeros payload in
    let sum_eq = sum_segment_exact src dst zeros payload zeros_bytes hp (omega arith) in
    let check = finish sum in
    let check_lt = finish-lt sum (omega arith) in
    let whole = with_word before check after in
    let whole_length : length whole ≡ length before + length after + 2 =
      omega (arith, length-append before (check / 256 ∷ check % 256 ∷ after)) in
    let whole_bytes = IsBytes-with_word check before after check_lt hb ha in
    let whole_total = total-with_word n check before after even in
    let whole_sum : sum_segment src dst whole payload ≡ sum + check =
      omega (arith, sum_segment_exact src dst whole payload whole_bytes hp (omega arith)) in
    ap finish whole_sum ∙ finish_cancels sum (omega arith)

pub compute_tcp_checksum-lt :
    (src dst : ℕ) (header payload : List ℕ)
    → IsBytes header
    → IsBytes payload
    → length header + length payload ≤ 65535
    → compute_tcp_checksum src dst header payload < 2 ^ 16
unfolding compute_tcp_checksum finish
compute_tcp_checksum-lt src dst header payload hh hp fits =
    let header_le = total-le header hh in
    let payload_le = total-le payload hp in
    let src_le = total-bytes32-le src in
    let dst_le = total-bytes32-le dst in
    finish-lt (sum_segment src dst header payload)
      (omega (arith, sum_segment_exact src dst header payload hh hp (omega arith)))
