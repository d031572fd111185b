-- ===== src/Checksum.antt =====
-- utils/Checksum.h and utils/Checksum.cpp: the one's complement checksum of RFC 1071 over a
-- buffer, and over a TCP segment with its pseudo-header. A buffer is the list of its bytes.
pub mod Sum
pub mod Fold
pub mod Verify
mod Tests
use tiny_cp.Base.{
  ℕ, zero, suc, ◌+◌, ◌-◌, ◌^◌, bit_and, bit_or, List, [], ◌∷◌, length, u16, u32, add32, ◌<<◌, ◌>>>◌,
  ltb, bytes32, if◌then◌else◌, htonl,
}

-- `static_cast<uint16_t>((data[0] << 8) | data[1])`
abbrev pub word : ℕ → ℕ → ℕ
word hi lo = u16 (bit_or (hi << 8) lo)

-- The words of the buffer, two bytes at a time; a last odd byte is padded on the right.
pub sum_words : ℕ → List ℕ → ℕ
sum_words sum [] = sum
sum_words sum (a ∷ []) = add32 sum (u16 (a << 8))
sum_words sum (a ∷ b ∷ rest) = sum_words (add32 sum (word a b)) rest

-- `while (sum >> 16) sum = (sum & 0xFFFF) + (sum >> 16)`, for at most `fuel` rounds.
pub fold_carries : ℕ → ℕ → ℕ
fold_carries zero sum = sum
fold_carries (suc fuel) sum =
    let next = fold_carries fuel (add32 (bit_and sum 0xFFFF) (sum >>> 16)) in
    if ltb 0 (sum >>> 16) then next else sum

-- `static_cast<uint16_t>(~sum & 0xFFFF)`
pub complement : ℕ → ℕ
complement sum = u16 (bit_and (2 ^ 32 - 1 - sum) 0xFFFF)

-- The rounds that the loop is given.
abbrev pub fold_rounds : ℕ
fold_rounds = 2

pub ones_complement_checksum : List ℕ → ℕ
ones_complement_checksum bytes = complement (fold_carries fold_rounds (sum_words 0 bytes))

-- The pairs of an address in network byte order, as it lies in memory.
pub sum_address : ℕ → ℕ → ℕ
sum_address sum ip_net = sum_words sum (bytes32 ip_net)

-- The sum before the carries are folded: pseudo-header, header, payload. The header has an even
-- number of bytes, so its loop reads no byte beyond it and is that of `sum_words`.
pub sum_segment : ℕ → ℕ → List ℕ → List ℕ → ℕ
sum_segment src_ip_net dst_ip_net header payload =
    let addresses = sum_address (sum_address 0 src_ip_net) dst_ip_net in
    let tcp_len = u16 (length header + length payload) in
    let pseudo = add32 (add32 addresses (u16 6)) tcp_len in
    sum_words (sum_words pseudo header) payload

pub compute_tcp_checksum : ℕ → ℕ → List ℕ → List ℕ → ℕ
compute_tcp_checksum src_ip_net dst_ip_net header payload =
    complement (fold_carries fold_rounds (sum_segment src_ip_net dst_ip_net header payload))
