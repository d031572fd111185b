-- ===== src/Stack/Delivery.antt =====
-- A packet that the stack writes, at the stack that receives it: `write_packet_` against
-- `process_incoming_packet_`.
use tiny_cp.Base.{
  ℕ, ◌+◌, ◌≤◌, ◌≡◌, refl, ◌∙◌, arith, List, true, some, length, htons-lt, htonl-htonl, htonl-lt,
  htonl,
}
use tiny_cp.Base.Memory.{length-span}
use tiny_cp.Address.{Ipv4Address, IsEndpoint}
use tiny_cp.Tcb.{max_ipv4_packet_size}
use tiny_cp.Ipv4.Header as IpHeader
use tiny_cp.Ipv4.Packet as IpPacket
use tiny_cp.Ipv4.Packet.{Ipv4Packet}
use tiny_cp.Ipv4.View as IpView
use tiny_cp.Ipv4.Mirror as IpMirror
use tiny_cp.Ipv4.RoundTrip as IpRoundTrip
use tiny_cp.Tcp.Header
use tiny_cp.Tcp.Packet
use tiny_cp.Tcp.Packet.{TcpPacket}
use tiny_cp.Tcp.View
use tiny_cp.Tcp.Mirror
use tiny_cp.Tcp.RoundTrip
use tiny_cp.Stack.State.{Host, TcpStack}
use tiny_cp.Stack.Output.{ip_header, segment_bytes, datagram_bytes}
use tiny_cp.Stack.Input.{process_incoming_packet, route}

-- A packet from one endpoint to another, of a plain header and a payload that fits a datagram.
pub record IsSegment (src dst : Ipv4Address) (p : TcpPacket) : Type 0 where
  pub header_in : Mirror.IsValid p.header
  pub offset : Header.data_offset p.header ≡ 5
  pub from_port : Header.source_port_ntoh p.header ≡ src.port
  pub to_port : Header.dest_port_ntoh p.header ≡ dst.port
  pub fits : length p.payload ≤ 65495

ip_header-IsValid : (src dst : Ipv4Address) → IpMirror.IsValid (ip_header src dst)
unfolding ip_header IpHeader.set_ihl IpHeader.set_version IpHeader.set_ttl IpHeader.set_protocol
    IpHeader.set_fragment_offset IpHeader.set_source_address IpHeader.set_destination_address
ip_header-IsValid src dst = record {
  version_ihl_in = omega arith;
  type_of_service_in = omega arith;
  total_length_in = omega arith;
  identification_in = omega arith;
  flags_fragment_offset_in = htons-lt _;
  ttl_in = omega arith;
  protocol_in = omega arith;
  checksum_in = omega arith;
  source_address_in = htonl-lt _;
  destination_address_in = htonl-lt _;
}

version-ip_header : (src dst : Ipv4Address) → IpHeader.version (ip_header src dst) ≡ 4
unfolding IpHeader.version ip_header IpHeader.set_ihl IpHeader.set_version IpHeader.set_ttl
    IpHeader.set_protocol IpHeader.set_fragment_offset IpHeader.set_source_address
    IpHeader.set_destination_address
version-ip_header src dst = refl

header_length-ip_header : (src dst : Ipv4Address) → IpHeader.header_length (ip_header src dst) ≡ 20
unfolding IpHeader.header_length ip_header IpHeader.set_ihl IpHeader.set_version IpHeader.set_ttl
    IpHeader.set_protocol IpHeader.set_fragment_offset IpHeader.set_source_address
    IpHeader.set_destination_address
header_length-ip_header src dst = refl

header_len-ip_header : (src dst : Ipv4Address) → IpPacket.header_len (ip_header src dst) ≡ 20
unfolding IpPacket.header_len
header_len-ip_header src dst = ground (arith, header_length-ip_header src dst)

addresses-outgoing :
    (src dst : Ipv4Address) (bytes : List ℕ)
    → IsEndpoint src
    → IsEndpoint dst
    → let h = IpPacket.outgoing (record { header = ip_header src dst; payload = bytes }) in
      (IpHeader.source_address_ntoh h ≡ src.address)
      × (IpHeader.destination_address_ntoh h ≡ dst.address)
unfolding IpPacket.outgoing IpHeader.set_checksum IpHeader.set_total_length
    IpHeader.source_address_ntoh IpHeader.destination_address_ntoh ip_header IpHeader.set_ihl
    IpHeader.set_version IpHeader.set_ttl IpHeader.set_protocol IpHeader.set_fragment_offset
    IpHeader.set_source_address IpHeader.set_destination_address
addresses-outgoing src dst bytes v w =
    (htonl-htonl src.address v.address_in, htonl-htonl dst.address w.address_in)

ip_valid_of_parse : (v : List ℕ) → IpView.parse v ≡ some v → IpView.valid v ≡ true
unfolding IpView.parse
ip_valid_of_parse v h = ground arith

valid_of_parse : (v : List ℕ) → View.parse v ≡ some v → View.valid v ≡ true
unfolding View.parse
valid_of_parse v h = ground arith

-- The ports are not among the fields that `write` changes.
ports-outgoing :
    (p : TcpPacket) (src dst : ℕ)
    → Header.data_offset p.header ≡ 5
    → (Header.source_port_ntoh (Packet.outgoing p src dst) ≡ Header.source_port_ntoh p.header)
      × (Header.dest_port_ntoh (Packet.outgoing p src dst) ≡ Header.dest_port_ntoh p.header)
unfolding Packet.outgoing Packet.sized Header.set_checksum Header.source_port_ntoh
    Header.dest_port_ntoh
ports-outgoing p src dst h = ground (arith, h)

header_len_of_offset : (h : Header.TcpHeader) → Header.data_offset h ≡ 5 → Packet.header_len h ≡ 20
unfolding Packet.header_len Header.header_length
header_len_of_offset h e = ground (arith, e)

module _ (host : Host) (src dst : Ipv4Address) (p : TcpPacket) (v : IsSegment src dst p) where
  segment_bytes-Parses :
      ((Packet.write_net p max_ipv4_packet_size host.stack_memory
          (htonl src.address)
          (htonl dst.address)).written
        ≡ 20 + length p.payload)
      × RoundTrip.Parses p (htonl src.address) (htonl dst.address) (segment_bytes host src dst p)
  unfolding segment_bytes Packet.write
  segment_bytes-Parses =
      let long = header_len_of_offset p.header v.offset in
      let fits = v.fits in
      let (size, parses) =
        RoundTrip.write_net-Parses p max_ipv4_packet_size host.stack_memory (htonl src.address)
          (htonl dst.address) v.header_in (omega arith) (omega arith) in
      (omega arith, parses)

  length-segment_bytes : length (segment_bytes host src dst p) ≡ 20 + length p.payload
  unfolding segment_bytes Packet.write
  length-segment_bytes =
      let o =
        Packet.write_net p max_ipv4_packet_size host.stack_memory (htonl src.address)
          (htonl dst.address) in
      length-span o.out 0 o.written ∙ segment_bytes-Parses.0

  datagram_bytes-Parses :
      IpRoundTrip.Parses
        (record { header = ip_header src dst; payload = segment_bytes host src dst p })
        (datagram_bytes host src dst p)
  unfolding datagram_bytes
  datagram_bytes-Parses =
      let ip : Ipv4Packet = record {
        header = ip_header src dst;
        payload = segment_bytes host src dst p;
      } in
      let size = length-segment_bytes in
      let short = header_length-ip_header src dst in
      let long = header_len-ip_header src dst in
      let fits = v.fits in
      let (written, parses) =
        IpRoundTrip.write-Parses ip max_ipv4_packet_size host.stack_memory
          (ip_header-IsValid src dst) (version-ip_header src dst) (omega arith) (omega arith)
          (omega arith) in
      parses

-- What a stack that reads the datagram of a segment does is to route a segment of the same two
-- endpoints; its view of that segment has the payload of the packet, and the fields of its header
-- with the checksum put in.
pub process_incoming_packet-datagram_bytes :
    (host receiver : Host) (src dst : Ipv4Address) (p : TcpPacket) (s : TcpStack)
    → IsEndpoint src
    → IsEndpoint dst
    → IsSegment src dst p
    → let view = segment_bytes host src dst p in
      (process_incoming_packet receiver (datagram_bytes host src dst p) s
        ≡ route receiver src dst view s)
      × (View.payload view ≡ p.payload)
      × Mirror.Agrees view (Packet.outgoing p (htonl src.address) (htonl dst.address))
unfolding process_incoming_packet
process_incoming_packet-datagram_bytes host receiver src dst p s src_in dst_in v =
    let outer = datagram_bytes-Parses host src dst p v in
    let (_, inner) = segment_bytes-Parses host src dst p v in
    let (from, to) = ports-outgoing p (htonl src.address) (htonl dst.address) v.offset in
    let (from_addr, to_addr) =
      addresses-outgoing src dst (segment_bytes host src dst p) src_in dst_in in
    let source_port = inner.fields.source_port_ntoh ∙ from ∙ v.from_port in
    let dest_port = inner.fields.dest_port_ntoh ∙ to ∙ v.to_port in
    let source_address = outer.fields.source_address_ntoh ∙ from_addr in
    let destination_address = outer.fields.destination_address_ntoh ∙ to_addr in
    (
      rw
          (
            ip_valid_of_parse _ outer.accepted,
            outer.payload,
            valid_of_parse _ inner.accepted,
            source_address,
            destination_address,
            source_port,
            dest_port,
          )
          refl,
      inner.payload,
      inner.fields,
    )
