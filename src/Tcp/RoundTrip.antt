-- ===== src/Tcp/RoundTrip.antt =====
-- `TcpPacket::write` and then `TcpPacketView`.
use tiny_cp.Base.{
  ℕ, ◌+◌, ◌-◌, ◌<◌, ◌≤◌, ◌≡◌, refl, ap, ◌∙◌, sym, ◌⊎◌, arith, List, ◌++◌, some, length,
  length-append, drop-append, htons-lt, ltb→lt, bytes16, bytes32, ltb, Bool-cases, inl, inr, ◌==◌,
}
use mathlib.Core.List.{append_assoc}
use tiny_cp.Base.Memory.{Memory, copy_n, span, span_placed, length-span}
use tiny_cp.Tcp.Header.{
  TcpHeader, header_length, data_offset, serialize, set_checksum, set_data_offset,
}
use tiny_cp.Tcp.Flags.{control-set_data_offset}
use tiny_cp.Tcp.Packet.{TcpPacket, header_len, outgoing, sized, place, write_net}
use tiny_cp.Tcp.View
use tiny_cp.Tcp.Mirror.{IsValid, Agrees, serialize-Agrees}

pub length-serialize : (h : TcpHeader) → length (serialize h) ≡ 20
unfolding serialize bytes16 bytes32
length-serialize h = refl

-- A data offset of zero becomes five; any other header is left alone.
sized_cases :
    (h : TcpHeader)
    → ((0 < data_offset h) × (sized h ≡ h))
      ⊎ ((data_offset h ≡ 0) × (sized h ≡ set_data_offset 5 h))
unfolding sized
sized_cases h = elim (Bool-cases (data_offset h == 0)) [
  | inl e ↦ inr (ground arith, rw e)
  | inr e ↦ inl (ground arith, rw e)
]

set_data_offset-IsValid :
    (words : ℕ) (h : TcpHeader) → IsValid h → IsValid (set_data_offset words h)
unfolding set_data_offset
set_data_offset-IsValid words h v = record {
  source_port_in = v.source_port_in;
  dest_port_in = v.dest_port_in;
  seq_num_in = v.seq_num_in;
  ack_num_in = v.ack_num_in;
  control_in = htons-lt _;
  window_in = v.window_in;
  checksum_in = v.checksum_in;
  urgent_pointer_in = v.urgent_pointer_in;
}

-- The header that goes out has its fields in range, and the length that `write` counts with.
sized-IsValid : (h : TcpHeader) → IsValid h → IsValid (sized h)
sized-IsValid h v = elim (sized_cases h) [
  | inl (_, e) ↦ rw e v
  | inr (_, e) ↦ rw e (set_data_offset-IsValid 5 h v)
]

header_length-sized : (h : TcpHeader) → header_length (sized h) ≡ header_len h
unfolding header_len header_length
header_length-sized h = elim (sized_cases h) [
  | inl (positive, e) ↦ rw e (ground (arith, htons-lt h.control, positive))
  | inr (zero_offset, e) ↦ rw e (ground (arith, control-set_data_offset 5 h, zero_offset))
]

pub outgoing-IsValid :
    (p : TcpPacket) (src dst : ℕ) → IsValid p.header → IsValid (outgoing p src dst)
unfolding outgoing set_checksum
outgoing-IsValid p src dst v =
    let s = sized-IsValid p.header v in
    record {
      source_port_in = s.source_port_in;
      dest_port_in = s.dest_port_in;
      seq_num_in = s.seq_num_in;
      ack_num_in = s.ack_num_in;
      control_in = s.control_in;
      window_in = s.window_in;
      checksum_in = htons-lt _;
      urgent_pointer_in = s.urgent_pointer_in;
    }

pub header_length-outgoing :
    (p : TcpPacket) (src dst : ℕ) → header_length (outgoing p src dst) ≡ header_len p.header
unfolding outgoing set_checksum header_length
header_length-outgoing p src dst = header_length-sized p.header

module _ (p : TcpPacket) (capacity : ℕ) (out : Memory) (src dst : ℕ) where
  -- The bytes that the caller may send: the span up to the count that `write` returns.
  abbrev pub segment : List ℕ
  segment = let o = write_net p capacity out src dst in span o.out 0 o.written

  -- The header, what stood in the place of options, and the payload.
  abbrev pub gap_bytes : List ℕ
  gap_bytes = span (copy_n (serialize (outgoing p src dst)) out 0) 20 (header_len p.header - 20)

  pub segment_lem :
      header_len p.header + length p.payload ≤ capacity
      → 20 ≤ header_len p.header
      → segment ≡ serialize (outgoing p src dst) ++ (gap_bytes ++ p.payload)
  unfolding write_net place
  segment_lem fits long =
      elim (Bool-cases (ltb capacity (header_len p.header + length p.payload))) [
        | inl h ↦ absurd (omega (arith, ltb→lt _ _ h))
        | inr h ↦
            let wire = serialize (outgoing p src dst) in
            let placed = span_placed wire p.payload out (header_len p.header - 20) in
            let whole : length wire + (header_len p.header - 20) ≡ header_len p.header =
              omega (arith, length-serialize (outgoing p src dst)) in
            rw h (rw (whole, length-serialize) at placed)
      ]

-- What a receiver reads from the bytes that `write` gives out.
pub record Parses (p : TcpPacket) (src dst : ℕ) (v : List ℕ) : Type 0 where
  pub accepted : View.parse v ≡ some v
  pub payload : View.payload v ≡ p.payload
  pub fields : Agrees v (outgoing p src dst)

-- A view whose header length lies between the least one and its size is valid.
pub parse_of_bounds :
    (v : List ℕ)
    → 20 ≤ View.header_length v
    → View.header_length v ≤ length v
    → View.parse v ≡ some v
unfolding View.parse View.valid
parse_of_bounds v long fits = ground arith

-- What stands behind the header is the payload.
pub payload_of_parts :
    (front back : List ℕ)
    → View.header_length (front ++ back) ≡ length front
    → View.payload (front ++ back) ≡ back
unfolding View.payload
payload_of_parts front back e = drop-append _ front back (sym e)

written-write_net :
    (p : TcpPacket) (capacity : ℕ) (out : Memory) (src dst : ℕ)
    → header_len p.header + length p.payload ≤ capacity
    → (write_net p capacity out src dst).written ≡ header_len p.header + length p.payload
unfolding write_net
written-write_net p capacity out src dst fits = ground arith

-- `write` of a header whose fields fit their types, and whose length is at least twenty bytes, into
-- a span that is large enough returns the size of the segment, and the view over those bytes is
-- valid, has the payload, and has the fields of the header that went out. That header is the
-- packet's with a checksum put in, and a data offset of zero taken for five.
pub write_net-Parses :
    (p : TcpPacket) (capacity : ℕ) (out : Memory) (src dst : ℕ)
    → IsValid p.header
    → 20 ≤ header_len p.header
    → header_len p.header + length p.payload ≤ capacity
    → ((write_net p capacity out src dst).written ≡ header_len p.header + length p.payload)
      × Parses p src dst (segment p capacity out src dst)
write_net-Parses p capacity out src dst v long fits =
    let hdr = outgoing p src dst in
    let wire = serialize hdr in
    let gap = gap_bytes p capacity out src dst in
    let bytes = segment_lem p capacity out src dst fits long in
    let agrees = serialize-Agrees hdr (gap ++ p.payload) (outgoing-IsValid p src dst v) in
    let size : View.header_length (wire ++ (gap ++ p.payload)) ≡ header_len p.header =
      agrees.header_length ∙ header_length-outgoing p src dst in
    let front : length (wire ++ gap) ≡ header_len p.header = omega (
      arith,
      length-append wire gap,
      length-serialize hdr,
      length-span (copy_n wire out 0) 20 (header_len p.header - 20),
    ) in
    let joined = append_assoc wire gap p.payload in
    let parses : Parses p src dst (wire ++ (gap ++ p.payload)) = record {
      accepted =
          parse_of_bounds _ (omega (arith, size))
            (omega (arith, size, front, ap length joined, length-append (wire ++ gap) p.payload));
      payload =
          ap View.payload (sym joined)
          ∙ payload_of_parts (wire ++ gap) p.payload
              (ap View.header_length joined ∙ size ∙ sym front);
      fields = agrees;
    } in
    (written-write_net p capacity out src dst fits, rw bytes parses)
