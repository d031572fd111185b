-- ===== src/Ipv4/Print.antt =====
-- IPv4Packet.cpp: `PrintIPv4Header`, the dump that `operator<<` writes of an `IPv4Header` and of an
-- `IPv4PacketView`. The template's parameter is the record of the getters that it calls.
use tiny_cp.Base.{ℕ, ◌≡◌, refl, List, [], ◌∷◌, ◌++◌, bit_and, ◌>>>◌}
use tiny_cp.Text.{Bytes, codes, decimal, hex, written}
use tiny_cp.Address.Print.{print_ip}
use tiny_cp.Ipv4.Header
use tiny_cp.Ipv4.Header.{Ipv4Header, serialize}
use tiny_cp.Ipv4.Raw
use tiny_cp.Ipv4.View
use tiny_cp.Ipv4.View.{Ipv4PacketView}
use tiny_cp.Ipv4.Mirror.{IsValid, Agrees, ipv4_serialize-Agrees}

-- The class `Header` of the template.
pub record Getters (H : Type 0) : Type 0 where
  pub version : H → ℕ
  pub ihl : H → ℕ
  pub header_length : H → ℕ
  pub type_of_service : H → ℕ
  pub total_length_ntoh : H → ℕ
  pub identification_ntoh : H → ℕ
  pub flags : H → ℕ
  pub fragment_offset : H → ℕ
  pub ttl : H → ℕ
  pub protocol : H → ℕ
  pub checksum_ntoh : H → ℕ
  pub source_address : H → ℕ
  pub destination_address : H → ℕ

abbrev pub header_getters : Getters Ipv4Header
header_getters = record {
  version = Header.version;
  ihl = Header.ihl;
  header_length = Header.header_length;
  type_of_service = Raw.type_of_service;
  total_length_ntoh = Header.total_length_ntoh;
  identification_ntoh = Header.identification_ntoh;
  flags = Header.flags;
  fragment_offset = Header.fragment_offset;
  ttl = Raw.ttl;
  protocol = Raw.protocol;
  checksum_ntoh = Header.checksum_ntoh;
  source_address = Raw.source_address;
  destination_address = Raw.destination_address;
}

abbrev pub view_getters : Getters Ipv4PacketView
view_getters = record {
  version = View.version;
  ihl = View.ihl;
  header_length = View.header_length;
  type_of_service = View.type_of_service;
  total_length_ntoh = View.total_length_ntoh;
  identification_ntoh = View.identification_ntoh;
  flags = View.flags;
  fragment_offset = View.fragment_offset;
  ttl = View.ttl;
  protocol = View.protocol;
  checksum_ntoh = View.checksum_ntoh;
  source_address = View.source_address;
  destination_address = View.destination_address;
}

pub print_ipv4_header : {H : Type 0} → Getters H → H → Bytes
unfolding written
print_ipv4_header {H} get h =
    let flags = get.flags h in
    written (
      codes "IPv4 Header {\n"
      ∷ codes "  Version:            "
      ∷ decimal (get.version h)
      ∷ codes "\n"
      ∷ codes "  IHL:                "
      ∷ decimal (get.ihl h)
      ∷ codes " ("
      ∷ decimal (get.header_length h)
      ∷ codes " bytes)\n"
      ∷ codes "  Type of Service:    0x"
      ∷ hex 2 (get.type_of_service h) []
      ∷ codes "\n"
      ∷ codes "  Total Length:       "
      ∷ decimal (get.total_length_ntoh h)
      ∷ codes "\n"
      ∷ codes "  Identification:     0x"
      ∷ hex 4 (get.identification_ntoh h) []
      ∷ codes "\n"
      ∷ codes "  Flags:              0b"
      ∷ decimal (bit_and (flags >>> 2) 1)
      ∷ decimal (bit_and (flags >>> 1) 1)
      ∷ decimal (bit_and flags 1)
      ∷ codes "\n"
      ∷ codes "  Fragment Offset:    "
      ∷ decimal (get.fragment_offset h)
      ∷ codes "\n"
      ∷ codes "  TTL:                "
      ∷ decimal (get.ttl h)
      ∷ codes "\n"
      ∷ codes "  Protocol:           "
      ∷ decimal (get.protocol h)
      ∷ codes "\n"
      ∷ codes "  Checksum:           0x"
      ∷ hex 4 (get.checksum_ntoh h) []
      ∷ codes "\n"
      ∷ codes "  Source:             "
      ∷ print_ip (get.source_address h)
      ∷ codes "\n"
      ∷ codes "  Destination:        "
      ∷ print_ip (get.destination_address h)
      ∷ codes "\n}"
      ∷ [])

pub print_of_agreeing :
    (v : List ℕ) (h : Ipv4Header)
    → Agrees v h
    → print_ipv4_header view_getters v ≡ print_ipv4_header header_getters h
unfolding print_ipv4_header Raw.type_of_service Raw.ttl Raw.protocol Raw.source_address
    Raw.destination_address
print_of_agreeing v h a =
    rw
      (
        a.version, a.ihl, a.header_length, a.type_of_service, a.total_length_ntoh,
        a.identification_ntoh, a.flags, a.fragment_offset, a.ttl, a.protocol, a.checksum_ntoh,
        a.source_address, a.destination_address,
      )
      refl

-- The dump of the view over the bytes that a header is serialized to, whatever bytes follow, is
-- the dump of the header.
pub print_ipv4_header-serialize :
    (h : Ipv4Header) (rest : List ℕ)
    → IsValid h
    → print_ipv4_header view_getters (serialize h ++ rest) ≡ print_ipv4_header header_getters h
print_ipv4_header-serialize h rest v =
    print_of_agreeing (serialize h ++ rest) h (ipv4_serialize-Agrees h rest v)
