-- ===== src/Ipv4/View.antt =====
-- The class `IPv4PacketView`: the fields of a datagram read from its bytes.
use tiny_cp.Base.{
  ℕ, ◌-◌, ◌*◌, Bool, ◌&&◌, Option, none, some, List, bit_and, u8, ◌>>>◌, leb, ◌==◌, htons, htonl,
  if◌then◌else◌, length, get_or, take, drop,
}
use tiny_cp.Wire.{be16, be32}

-- The view is its bytes.
abbrev pub Ipv4PacketView : Type 0
Ipv4PacketView = List ℕ

abbrev pub min_length : ℕ
min_length = 20

-- The raw getters: network byte order.
unfoldable pub version_ihl : Ipv4PacketView → ℕ
version_ihl v = get_or v 0 0

unfoldable pub type_of_service : Ipv4PacketView → ℕ
type_of_service v = get_or v 1 0

unfoldable pub total_length : Ipv4PacketView → ℕ
total_length v = htons (be16 v 2)

unfoldable pub identification : Ipv4PacketView → ℕ
identification v = htons (be16 v 4)

unfoldable pub flags_fragment_offset : Ipv4PacketView → ℕ
flags_fragment_offset v = htons (be16 v 6)

unfoldable pub ttl : Ipv4PacketView → ℕ
ttl v = get_or v 8 0

unfoldable pub protocol : Ipv4PacketView → ℕ
protocol v = get_or v 9 0

unfoldable pub checksum : Ipv4PacketView → ℕ
checksum v = htons (be16 v 10)

unfoldable pub source_address : Ipv4PacketView → ℕ
source_address v = htonl (be32 v 12)

unfoldable pub destination_address : Ipv4PacketView → ℕ
destination_address v = htonl (be32 v 16)

-- The getters in host order.
unfoldable pub version : Ipv4PacketView → ℕ
version v = get_or v 0 0 >>> 4

unfoldable pub ihl : Ipv4PacketView → ℕ
ihl v = bit_and (get_or v 0 0) 0x0F

unfoldable pub header_length : Ipv4PacketView → ℕ
unfolding ihl
header_length v = u8 (ihl v * 4)

unfoldable pub total_length_ntoh : Ipv4PacketView → ℕ
total_length_ntoh v = be16 v 2

unfoldable pub identification_ntoh : Ipv4PacketView → ℕ
identification_ntoh v = be16 v 4

unfoldable pub flags : Ipv4PacketView → ℕ
flags v = u8 (be16 v 6 >>> 13)

unfoldable pub fragment_offset : Ipv4PacketView → ℕ
fragment_offset v = bit_and (be16 v 6) 0x1FFF

unfoldable pub flags_fragment_offset_ntoh : Ipv4PacketView → ℕ
flags_fragment_offset_ntoh v = be16 v 6

unfoldable pub checksum_ntoh : Ipv4PacketView → ℕ
checksum_ntoh v = be16 v 10

unfoldable pub source_address_ntoh : Ipv4PacketView → ℕ
source_address_ntoh v = be32 v 12

unfoldable pub destination_address_ntoh : Ipv4PacketView → ℕ
destination_address_ntoh v = be32 v 16

unfoldable pub valid : Ipv4PacketView → Bool
valid v =
    leb min_length (length v)
    && version v == 4
    && leb (header_length v) (total_length_ntoh v)
    && leb (total_length_ntoh v) (length v)

-- `bytes_.subspan(header_length(), total_length_ntoh() - header_length())`, where `valid()` holds
unfoldable pub payload : Ipv4PacketView → List ℕ
payload v = take (total_length_ntoh v - header_length v) (drop (header_length v) v)

unfoldable pub parse : List ℕ → Option Ipv4PacketView
parse bytes = if valid bytes then some bytes else none
