-- ===== src/Ipv4/Raw.antt =====
-- The class `IPv4Header`: the getters that give the fields as they lie, in network byte order.
use tiny_cp.Base.{ℕ}
use tiny_cp.Ipv4.Header.{Ipv4Header}

unfoldable pub version_ihl : Ipv4Header → ℕ
version_ihl h = h.version_ihl

unfoldable pub type_of_service : Ipv4Header → ℕ
type_of_service h = h.type_of_service

unfoldable pub total_length : Ipv4Header → ℕ
total_length h = h.total_length

unfoldable pub identification : Ipv4Header → ℕ
identification h = h.identification

unfoldable pub flags_fragment_offset : Ipv4Header → ℕ
flags_fragment_offset h = h.flags_fragment_offset

unfoldable pub ttl : Ipv4Header → ℕ
ttl h = h.ttl

unfoldable pub protocol : Ipv4Header → ℕ
protocol h = h.protocol

unfoldable pub checksum : Ipv4Header → ℕ
checksum h = h.checksum

unfoldable pub source_address : Ipv4Header → ℕ
source_address h = h.source_address

unfoldable pub destination_address : Ipv4Header → ℕ
destination_address h = h.destination_address
