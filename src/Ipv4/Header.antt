-- ===== src/Ipv4/Header.antt =====
-- The class `IPv4Header`: its fields as they lie in memory, with getters and setters in host order.
-- `Ipv4.Text` has the two setters that take a dotted quad.
use tiny_cp.Base.{
  ℕ, ◌*◌, ◌/◌, List, [], ◌∷◌, ◌++◌, bit_and, bit_or, u8, u16, ◌<<◌, ◌>>>◌, htons, htonl, bytes16,
  bytes32,
}
use tiny_cp.Checksum.{ones_complement_checksum}

pub record Ipv4Header : Type 0 where
  pub version_ihl : ℕ
  pub type_of_service : ℕ
  pub total_length : ℕ
  pub identification : ℕ
  pub flags_fragment_offset : ℕ
  pub ttl : ℕ
  pub protocol : ℕ
  pub checksum : ℕ
  pub source_address : ℕ
  pub destination_address : ℕ

-- `IPv4Header ip_header{}`
abbrev pub zero_header : Ipv4Header
zero_header = record {
  version_ihl = 0;
  type_of_service = 0;
  total_length = 0;
  identification = 0;
  flags_fragment_offset = 0;
  ttl = 0;
  protocol = 0;
  checksum = 0;
  source_address = 0;
  destination_address = 0;
}

unfoldable pub version : Ipv4Header → ℕ
version h = h.version_ihl >>> 4

unfoldable pub ihl : Ipv4Header → ℕ
ihl h = bit_and h.version_ihl 0x0F

unfoldable pub header_length : Ipv4Header → ℕ
unfolding ihl
header_length h = u8 (ihl h * 4)

unfoldable pub total_length_ntoh : Ipv4Header → ℕ
total_length_ntoh h = htons h.total_length

unfoldable pub identification_ntoh : Ipv4Header → ℕ
identification_ntoh h = htons h.identification

unfoldable pub flags : Ipv4Header → ℕ
flags h = u8 (htons h.flags_fragment_offset >>> 13)

unfoldable pub fragment_offset : Ipv4Header → ℕ
fragment_offset h = bit_and (htons h.flags_fragment_offset) 0x1FFF

unfoldable pub flags_fragment_offset_ntoh : Ipv4Header → ℕ
flags_fragment_offset_ntoh h = htons h.flags_fragment_offset

unfoldable pub checksum_ntoh : Ipv4Header → ℕ
checksum_ntoh h = htons h.checksum

unfoldable pub source_address_ntoh : Ipv4Header → ℕ
source_address_ntoh h = htonl h.source_address

unfoldable pub destination_address_ntoh : Ipv4Header → ℕ
destination_address_ntoh h = htonl h.destination_address

unfoldable pub set_version : ℕ → Ipv4Header → Ipv4Header
set_version v h = record h {
  version_ihl = u8 (bit_or (bit_and h.version_ihl 0x0F) (bit_and v 0x0F << 4));
}

unfoldable pub set_ihl : ℕ → Ipv4Header → Ipv4Header
set_ihl words h = record h {
  version_ihl = u8 (bit_or (bit_and h.version_ihl 0xF0) (bit_and words 0x0F));
}

unfoldable pub set_header_length : ℕ → Ipv4Header → Ipv4Header
set_header_length bytes h = set_ihl (bytes / 4) h

unfoldable pub set_type_of_service : ℕ → Ipv4Header → Ipv4Header
set_type_of_service t h = record h { type_of_service = t }

unfoldable pub set_total_length : ℕ → Ipv4Header → Ipv4Header
set_total_length n h = record h { total_length = htons n }

unfoldable pub set_identification : ℕ → Ipv4Header → Ipv4Header
set_identification n h = record h { identification = htons n }

unfoldable pub set_flags : ℕ → Ipv4Header → Ipv4Header
set_flags new h =
    let word = htons h.flags_fragment_offset in
    record h {
      flags_fragment_offset = htons (u16 (bit_or (bit_and word 0x1FFF) (bit_and new 0x7 << 13)));
    }

unfoldable pub set_fragment_offset : ℕ → Ipv4Header → Ipv4Header
set_fragment_offset offset h =
    let word = htons h.flags_fragment_offset in
    record h {
      flags_fragment_offset = htons (u16 (bit_or (bit_and word 0xE000) (bit_and offset 0x1FFF)));
    }

unfoldable pub set_ttl : ℕ → Ipv4Header → Ipv4Header
set_ttl n h = record h { ttl = n }

unfoldable pub set_protocol : ℕ → Ipv4Header → Ipv4Header
set_protocol n h = record h { protocol = n }

unfoldable pub set_checksum : ℕ → Ipv4Header → Ipv4Header
set_checksum check h = record h { checksum = htons check }

unfoldable pub set_source_address : ℕ → Ipv4Header → Ipv4Header
set_source_address a h = record h { source_address = htonl a }

unfoldable pub set_destination_address : ℕ → Ipv4Header → Ipv4Header
set_destination_address a h = record h { destination_address = htonl a }

-- The bytes of the packed struct before the checksum, and behind it.
unfoldable pub front : Ipv4Header → List ℕ
front h =
    h.version_ihl
    ∷ h.type_of_service
    ∷ (bytes16 h.total_length
        ++ (bytes16 h.identification
            ++ (bytes16 h.flags_fragment_offset ++ (h.ttl ∷ h.protocol ∷ []))))

unfoldable pub back : Ipv4Header → List ℕ
back h = bytes32 h.source_address ++ bytes32 h.destination_address

-- `memcpy` of the packed struct
unfoldable pub serialize : Ipv4Header → List ℕ
unfolding front back
serialize h = front h ++ (bytes16 h.checksum ++ back h)

-- `wire[10] = wire[11] = 0` in the serialized header.
unfoldable pub compute_checksum : Ipv4Header → ℕ
compute_checksum h = ones_complement_checksum (front h ++ (0 ∷ 0 ∷ back h))
