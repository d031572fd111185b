-- ===== src/Ipv4/Mirror.antt =====
-- `IPv4PacketView` over the bytes that `IPv4Header::serialize` writes: each getter of the view
-- gives what the getter of the header gives.
use tiny_cp.Base.{
  ℕ, ◌/◌, ◌%◌, ◌^◌, ◌<◌, ◌≡◌, refl, ap, ◌∙◌, List, ◌++◌, htons, htonl, htons-htons, htonl-htonl,
  bytes16, bytes32, bit_and,
}
use tiny_cp.Wire.{be16, be32, be16_of_swap, be32_of_swap}
use tiny_cp.Ipv4.Header
use tiny_cp.Ipv4.Raw
use tiny_cp.Ipv4.View
use tiny_cp.Ipv4.Header.{Ipv4Header, serialize}

-- The fields fit their types.
pub record IsValid (h : Ipv4Header) : Type 0 where
  pub version_ihl_in : h.version_ihl < 2 ^ 8
  pub type_of_service_in : h.type_of_service < 2 ^ 8
  pub total_length_in : h.total_length < 2 ^ 16
  pub identification_in : h.identification < 2 ^ 16
  pub flags_fragment_offset_in : h.flags_fragment_offset < 2 ^ 16
  pub ttl_in : h.ttl < 2 ^ 8
  pub protocol_in : h.protocol < 2 ^ 8
  pub checksum_in : h.checksum < 2 ^ 16
  pub source_address_in : h.source_address < 2 ^ 32
  pub destination_address_in : h.destination_address < 2 ^ 32

-- The words of the view, at the offsets that the getters use.
record Mirrors (v : List ℕ) (h : Ipv4Header) : Type 0 where
  total : be16 v 2 ≡ htons h.total_length
  identity : be16 v 4 ≡ htons h.identification
  fragment : be16 v 6 ≡ htons h.flags_fragment_offset
  check : be16 v 10 ≡ htons h.checksum
  source : be32 v 12 ≡ htonl h.source_address
  destination : be32 v 16 ≡ htonl h.destination_address

serialize-Mirrors : (h : Ipv4Header) (rest : List ℕ) → Mirrors (serialize h ++ rest) h
unfolding serialize be16 be32 bytes16 bytes32
serialize-Mirrors h rest = record {
  total = be16_of_swap h.total_length;
  identity = be16_of_swap h.identification;
  fragment = be16_of_swap h.flags_fragment_offset;
  check = be16_of_swap h.checksum;
  source = be32_of_swap h.source_address;
  destination = be32_of_swap h.destination_address;
}

-- Every getter that the two classes share.
pub record Agrees (v : List ℕ) (h : Ipv4Header) : Type 0 where
  pub version_ihl : View.version_ihl v ≡ Raw.version_ihl h
  pub type_of_service : View.type_of_service v ≡ Raw.type_of_service h
  pub total_length : View.total_length v ≡ Raw.total_length h
  pub identification : View.identification v ≡ Raw.identification h
  pub flags_fragment_offset : View.flags_fragment_offset v ≡ Raw.flags_fragment_offset h
  pub ttl : View.ttl v ≡ Raw.ttl h
  pub protocol : View.protocol v ≡ Raw.protocol h
  pub checksum : View.checksum v ≡ Raw.checksum h
  pub source_address : View.source_address v ≡ Raw.source_address h
  pub destination_address : View.destination_address v ≡ Raw.destination_address h
  pub version : View.version v ≡ Header.version h
  pub ihl : View.ihl v ≡ Header.ihl h
  pub header_length : View.header_length v ≡ Header.header_length h
  pub total_length_ntoh : View.total_length_ntoh v ≡ Header.total_length_ntoh h
  pub identification_ntoh : View.identification_ntoh v ≡ Header.identification_ntoh h
  pub flags : View.flags v ≡ Header.flags h
  pub fragment_offset : View.fragment_offset v ≡ Header.fragment_offset h
  pub flags_fragment_offset_ntoh :
      View.flags_fragment_offset_ntoh v ≡ Header.flags_fragment_offset_ntoh h
  pub checksum_ntoh : View.checksum_ntoh v ≡ Header.checksum_ntoh h
  pub source_address_ntoh : View.source_address_ntoh v ≡ Header.source_address_ntoh h
  pub destination_address_ntoh : View.destination_address_ntoh v ≡ Header.destination_address_ntoh h

-- Each getter of the view over the serialized header, whatever bytes follow it, gives what the
-- getter of the header gives, raw and interpreted.
pub ipv4_serialize-Agrees :
    (h : Ipv4Header) (rest : List ℕ) → IsValid h → Agrees (serialize h ++ rest) h
unfolding View.version_ihl View.type_of_service View.total_length View.identification
    View.flags_fragment_offset View.ttl View.protocol View.checksum View.source_address
    View.destination_address View.version View.header_length View.total_length_ntoh
    View.identification_ntoh View.flags View.fragment_offset View.flags_fragment_offset_ntoh
    View.checksum_ntoh View.source_address_ntoh View.destination_address_ntoh Header.version
    Header.header_length Header.total_length_ntoh Header.identification_ntoh Header.flags
    Header.fragment_offset Header.flags_fragment_offset_ntoh Header.checksum_ntoh
    Header.source_address_ntoh Header.destination_address_ntoh serialize bytes16 Raw.version_ihl
    Raw.type_of_service Raw.total_length Raw.identification Raw.flags_fragment_offset Raw.ttl
    Raw.protocol Raw.checksum Raw.source_address Raw.destination_address
ipv4_serialize-Agrees h rest v =
    let m = serialize-Mirrors h rest in
    record {
      version_ihl = refl;
      type_of_service = refl;
      total_length = ap htons m.total ∙ htons-htons h.total_length v.total_length_in;
      identification = ap htons m.identity ∙ htons-htons h.identification v.identification_in;
      flags_fragment_offset =
          ap htons m.fragment ∙ htons-htons h.flags_fragment_offset v.flags_fragment_offset_in;
      ttl = refl;
      protocol = refl;
      checksum = ap htons m.check ∙ htons-htons h.checksum v.checksum_in;
      source_address = ap htonl m.source ∙ htonl-htonl h.source_address v.source_address_in;
      destination_address =
          ap htonl m.destination ∙ htonl-htonl h.destination_address v.destination_address_in;
      version = refl;
      ihl = refl;
      header_length = refl;
      total_length_ntoh = m.total;
      identification_ntoh = m.identity;
      flags = ap (λ w. w / 8192 % 256) m.fragment;
      fragment_offset = ap (λ w. bit_and w 0x1FFF) m.fragment;
      flags_fragment_offset_ntoh = m.fragment;
      checksum_ntoh = m.check;
      source_address_ntoh = m.source;
      destination_address_ntoh = m.destination;
    }
