-- ===== src/Tcp/Checked.antt =====
-- The checksum that `TcpPacket::write` puts into the header.
use tiny_cp.Base.{
  ℕ, ◌+◌, ◌^◌, ◌<◌, ◌≤◌, ◌≡◌, refl, ap, ◌∙◌, arith, List, ◌++◌, length, bytes16, bytes16-htons,
  bytes32,
}
use tiny_cp.Checksum.{compute_tcp_checksum}
use tiny_cp.Checksum.Sum.{IsBytes}
use tiny_cp.Checksum.Verify.{with_word, compute_tcp_checksum-lt, compute_tcp_checksum_verifies}
use tiny_cp.Tcp.Header.{TcpHeader, serialize, set_checksum, compute_checksum}
use tiny_cp.Tcp.Packet.{TcpPacket, outgoing, sized}

-- The sixteen bytes before the checksum, and the two behind it.
front : TcpHeader → List ℕ
front h =
    bytes16 h.source_port
    ++ (bytes16 h.dest_port
        ++ (bytes32 h.seq_num ++ (bytes32 h.ack_num ++ (bytes16 h.control ++ bytes16 h.window))))

back : TcpHeader → List ℕ
back h = bytes16 h.urgent_pointer

serialize-set_checksum :
    (x : ℕ) (h : TcpHeader)
    → x < 2 ^ 16
    → serialize (set_checksum x h) ≡ with_word (front h) x (back h)
unfolding serialize set_checksum front back bytes16 bytes32
serialize-set_checksum x h lt = ap (λ w. front h ++ (w ++ back h)) (bytes16-htons x lt)

front-IsBytes : (h : TcpHeader) → IsBytes (front h)
unfolding front bytes16 bytes32
front-IsBytes h = omega arith

back-IsBytes : (h : TcpHeader) → IsBytes (back h)
unfolding back bytes16
back-IsBytes h = omega arith

length-front : (h : TcpHeader) → length (front h) ≡ 8 + 8
unfolding front bytes16 bytes32
length-front h = refl

length-back : (h : TcpHeader) → length (back h) ≡ 2
unfolding back bytes16
length-back h = refl

with_word-IsBytes : (h : TcpHeader) (x : ℕ) → x < 2 ^ 16 → IsBytes (with_word (front h) x (back h))
unfolding front back bytes16 bytes32
with_word-IsBytes h x lt = omega arith

length-with_word : (h : TcpHeader) (x : ℕ) → length (with_word (front h) x (back h)) ≡ 20
unfolding front back bytes16 bytes32
length-with_word h x = refl

-- The header that `write` gives out passes the receiver's check: the checksum over the
-- pseudo-header, these twenty bytes and the payload is zero.
pub outgoing_verifies :
    (p : TcpPacket) (src dst : ℕ)
    → IsBytes p.payload
    → length p.payload ≤ 65515
    → compute_tcp_checksum src dst (serialize (outgoing p src dst)) p.payload ≡ 0
unfolding outgoing compute_checksum front back set_checksum
outgoing_verifies p src dst bytes fits =
    let base = sized p.header in
    let hdr = set_checksum 0 base in
    let zeros = serialize-set_checksum 0 base (omega arith) in
    let check = compute_tcp_checksum src dst (serialize hdr) p.payload in
    let check_lt : check < 2 ^ 16 = rw zeros (
      compute_tcp_checksum-lt src dst (with_word (front base) 0 (back base)) p.payload
        (with_word-IsBytes base 0 (omega arith)) bytes (omega (arith, length-with_word base 0))) in
    let final = serialize-set_checksum check hdr check_lt in
    ap (λ w. compute_tcp_checksum src dst w p.payload) final
    ∙ ap
        (λ w.
          compute_tcp_checksum src dst
            (with_word (front base) (compute_tcp_checksum src dst w p.payload) (back base))
            p.payload)
        zeros
    ∙ compute_tcp_checksum_verifies 8 1 src dst (front base) (back base) p.payload
        (length-front base) (length-back base) (front-IsBytes base) (back-IsBytes base) bytes
        (omega (arith, length-front base, length-back base))
