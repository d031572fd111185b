-- ===== src/Ipv4/RoundTrip.antt =====
-- `IPv4Packet::write` and then `IPv4PacketView`.
use native.Mathlib.Nat.{mod-eq_of_lt}
use mathlib.Core.List.{append_assoc, append-nil}
use tiny_cp.Base.{
  ℕ, ◌+◌, ◌-◌, ◌^◌, ◌<◌, ◌≤◌, ◌≡◌, refl, ap, ◌∙◌, sym, subst, arith, List, [], ◌++◌, some, inl, inr,
  length, length-append, take, take-append, drop-append, htons-htons, htons-lt, ltb, ltb→lt,
  bytes16, bytes32, Bool-cases,
}
use tiny_cp.Base.Memory.{Memory, copy_n, span, span_placed, length-span}
use tiny_cp.Ipv4.Header
use tiny_cp.Ipv4.Header.{Ipv4Header, header_length, serialize, set_checksum, set_total_length}
use tiny_cp.Ipv4.Packet.{Ipv4Packet, header_len, outgoing, write}
use tiny_cp.Ipv4.View
use tiny_cp.Ipv4.Mirror.{IsValid, Agrees, ipv4_serialize-Agrees}

pub length-serialize : (h : Ipv4Header) → length (serialize h) ≡ 20
unfolding serialize bytes16 bytes32
length-serialize h = refl

outgoing-IsValid : (p : Ipv4Packet) → IsValid p.header → IsValid (outgoing p)
unfolding outgoing set_checksum set_total_length
outgoing-IsValid p v = record {
  version_ihl_in = v.version_ihl_in;
  type_of_service_in = v.type_of_service_in;
  total_length_in = htons-lt _;
  identification_in = v.identification_in;
  flags_fragment_offset_in = v.flags_fragment_offset_in;
  ttl_in = v.ttl_in;
  protocol_in = v.protocol_in;
  checksum_in = htons-lt _;
  source_address_in = v.source_address_in;
  destination_address_in = v.destination_address_in;
}

header_length-outgoing : (p : Ipv4Packet) → header_length (outgoing p) ≡ header_length p.header
unfolding outgoing set_checksum set_total_length header_length
header_length-outgoing p = refl

version-outgoing : (p : Ipv4Packet) → Header.version (outgoing p) ≡ Header.version p.header
unfolding outgoing set_checksum set_total_length Header.version
version-outgoing p = refl

total_length-outgoing :
    (p : Ipv4Packet)
    → header_len p.header + length p.payload < 2 ^ 16
    → Header.total_length_ntoh (outgoing p) ≡ header_len p.header + length p.payload
unfolding outgoing set_checksum set_total_length Header.total_length_ntoh
total_length-outgoing p fits = rw (mod-eq_of_lt fits) (htons-htons _ fits)

header_len_of_long : (h : Ipv4Header) → 20 ≤ header_length h → header_len h ≡ header_length h
unfolding header_len
header_len_of_long h long = ground arith

module _ (p : Ipv4Packet) (capacity : ℕ) (out : Memory) where
  -- The bytes that the caller may send: the span up to the count that `write` returns.
  abbrev pub datagram : List ℕ
  datagram = let o = write p capacity out in span o.out 0 o.written

  -- What stood in the place of options.
  gap_bytes : List ℕ
  gap_bytes = span (copy_n (serialize (outgoing p)) out 0) 20 (header_len p.header - 20)

  datagram_lem :
      header_len p.header + length p.payload ≤ capacity
      → 20 ≤ header_len p.header
      → datagram ≡ serialize (outgoing p) ++ (gap_bytes ++ p.payload)
  unfolding write gap_bytes
  datagram_lem fits long =
      elim (Bool-cases (ltb capacity (header_len p.header + length p.payload))) [
        | inl h ↦ absurd (omega (arith, ltb→lt _ _ h))
        | inr h ↦
            let wire = serialize (outgoing p) in
            let placed = span_placed wire p.payload out (header_len p.header - 20) in
            let whole : length wire + (header_len p.header - 20) ≡ header_len p.header =
              omega (arith, length-serialize (outgoing p)) in
            rw h (rw (whole, length-serialize) at placed)
      ]

  length-gap_bytes : length gap_bytes ≡ header_len p.header - 20
  unfolding gap_bytes
  length-gap_bytes =
      length-span (copy_n (serialize (outgoing p)) out 0) 20 (header_len p.header - 20)

-- What a receiver reads from the bytes that `write` gives out, where `rest` follows them.
pub record Begins (p : Ipv4Packet) (v rest : List ℕ) : Type 0 where
  pub accepted : View.parse (v ++ rest) ≡ some (v ++ rest)
  pub payload : View.payload (v ++ rest) ≡ p.payload
  pub fields : Agrees (v ++ rest) (outgoing p)
  pub total : View.total_length_ntoh (v ++ rest) ≡ length v
  pub long : 20 ≤ length v

-- And where nothing follows.
pub record Parses (p : Ipv4Packet) (v : List ℕ) : Type 0 where
  pub accepted : View.parse v ≡ some v
  pub payload : View.payload v ≡ p.payload
  pub fields : Agrees v (outgoing p)
  pub total : View.total_length_ntoh v ≡ length v

parse_of_bounds :
    (v : List ℕ)
    → 20 ≤ length v
    → View.version v ≡ 4
    → View.header_length v ≤ View.total_length_ntoh v
    → View.total_length_ntoh v ≤ length v
    → View.parse v ≡ some v
unfolding View.parse View.valid
parse_of_bounds v long four header total = ground arith

payload_of_parts :
    (front back rest : List ℕ)
    → View.header_length (front ++ (back ++ rest)) ≡ length front
    → View.total_length_ntoh (front ++ (back ++ rest)) ≡ length front + length back
    → View.payload (front ++ (back ++ rest)) ≡ back
unfolding View.payload
payload_of_parts front back rest header total =
    let v = front ++ (back ++ rest) in
    let size : View.total_length_ntoh v - View.header_length v ≡ length back =
      omega (arith, header, total) in
    let behind = drop-append (View.header_length v) front (back ++ rest) (sym header) in
    ap (take (View.total_length_ntoh v - View.header_length v)) behind
    ∙ take-append (View.total_length_ntoh v - View.header_length v) back rest (sym size)

written-write :
    (p : Ipv4Packet) (capacity : ℕ) (out : Memory)
    → header_len p.header + length p.payload ≤ capacity
    → (write p capacity out).written ≡ header_len p.header + length p.payload
unfolding write
written-write p capacity out fits = ground arith

-- The packet can be written: version 4, twenty bytes of header at least, and a size that fits the
-- span and the field of the total length.
pub record CanWrite (p : Ipv4Packet) (capacity : ℕ) : Type 0 where
  pub fields : IsValid p.header
  pub four : Header.version p.header ≡ 4
  pub long : 20 ≤ header_length p.header
  pub fits : header_len p.header + length p.payload ≤ capacity
  pub small : header_len p.header + length p.payload < 2 ^ 16

-- The bytes in three parts, of which the first two are as long as the header says.
parts-Begins :
    (p : Ipv4Packet) (capacity : ℕ) (gap rest : List ℕ)
    → CanWrite p capacity
    → length gap ≡ header_len p.header - 20
    → Begins p (serialize (outgoing p) ++ (gap ++ p.payload)) rest
parts-Begins p capacity gap rest can length-gap =
    let hdr = outgoing p in
    let wire = serialize hdr in
    let bytes_length = header_len_of_long p.header can.long in
    let front : length (wire ++ gap) ≡ header_len p.header =
      omega (arith, length-append wire gap, length-serialize hdr, length-gap, can.long) in
    let v = wire ++ (gap ++ p.payload) in
    let count : length v ≡ header_len p.header + length p.payload = omega (
      arith,
      length-append wire (gap ++ p.payload),
      length-append gap p.payload,
      length-append wire gap,
      front,
    ) in
    let joined : v ++ rest ≡ (wire ++ gap) ++ (p.payload ++ rest) =
      append_assoc wire (gap ++ p.payload) rest
      ∙ ap (◌++◌ wire) (append_assoc gap p.payload rest)
      ∙ sym (append_assoc wire gap (p.payload ++ rest)) in
    let agrees =
      subst (λ w. Agrees w hdr) (sym (append_assoc wire (gap ++ p.payload) rest))
        (ipv4_serialize-Agrees hdr ((gap ++ p.payload) ++ rest) (outgoing-IsValid p can.fields)) in
    let size = agrees.header_length ∙ header_length-outgoing p in
    let total = agrees.total_length_ntoh ∙ total_length-outgoing p can.small in
    let whole = length-append v rest in
    record {
      accepted =
          parse_of_bounds (v ++ rest) (omega (arith, can.long))
            (agrees.version ∙ version-outgoing p ∙ can.four) (omega arith) (omega arith);
      payload =
          ap View.payload joined
          ∙ payload_of_parts (wire ++ gap) p.payload rest
              (ap View.header_length (sym joined) ∙ omega arith)
              (ap View.total_length_ntoh (sym joined) ∙ omega arith);
      fields = agrees;
      total = total ∙ sym count;
      long = omega (arith, can.long);
    }

pub datagram-Begins :
    (p : Ipv4Packet) (capacity : ℕ) (out : Memory) (rest : List ℕ)
    → CanWrite p capacity
    → Begins p (datagram p capacity out) rest
datagram-Begins p capacity out rest can =
    let bytes_length = header_len_of_long p.header can.long in
    rw (datagram_lem p capacity out can.fits (omega (arith, can.long))) (
      parts-Begins p capacity (gap_bytes p capacity out) rest can (length-gap_bytes p capacity out))

-- `write` of a version 4 header whose fields fit their types and whose header length is at least
-- twenty bytes, with fewer than 65536 bytes in all, into a span that is large enough returns the
-- size of the datagram, and the view over those bytes is valid, has the payload, a total
-- length equal to their number, and the fields of the header that went out.
pub write-Parses :
    (p : Ipv4Packet) (capacity : ℕ) (out : Memory)
    → IsValid p.header
    → Header.version p.header ≡ 4
    → 20 ≤ header_length p.header
    → header_len p.header + length p.payload ≤ capacity
    → header_len p.header + length p.payload < 2 ^ 16
    → ((write p capacity out).written ≡ header_len p.header + length p.payload)
      × Parses p (datagram p capacity out)
write-Parses p capacity out v four long fits small =
    let can : CanWrite p capacity = record {
      fields = v;
      four = four;
      long = long;
      fits = fits;
      small = small;
    } in
    let alone = append-nil (datagram p capacity out) in
    let b = datagram-Begins p capacity out [] can in
    let parses : Parses p (datagram p capacity out) = record {
      accepted = subst (λ w. View.parse w ≡ some w) alone b.accepted;
      payload = subst (λ w. View.payload w ≡ p.payload) alone b.payload;
      fields = subst (λ w. Agrees w (outgoing p)) alone b.fields;
      total = ap View.total_length_ntoh (sym alone) ∙ b.total;
    } in
    (written-write p capacity out fits, parses)
