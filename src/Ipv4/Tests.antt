-- ===== src/Ipv4/Tests.antt =====
-- The theorems on IPv4 headers and packets, at one packet.
use tiny_cp.Base.{◌+◌, ◌≡◌, refl, [], ◌∷◌, arith, length}
use tiny_cp.Checksum.{ones_complement_checksum}
use tiny_cp.Ipv4.Header.{
  Ipv4Header, serialize, set_checksum, compute_checksum, header_length, version,
}
use tiny_cp.Ipv4.Packet.{Ipv4Packet, header_len, write}
use tiny_cp.Ipv4.Mirror.{IsValid}
use tiny_cp.Ipv4.RoundTrip.{Parses, datagram, write-Parses}
use tiny_cp.Ipv4.Checked.{set_checksum_verifies}

abbrev header : Ipv4Header
header = record {
  version_ihl = 0x45;
  type_of_service = 0;
  total_length = 0;
  identification = 0x0100;
  flags_fragment_offset = 0x40;
  ttl = 255;
  protocol = 6;
  checksum = 0;
  source_address = 0x0100007F;
  destination_address = 0x0200000A;
}

abbrev packet : Ipv4Packet
packet = record { header = header; payload = 72 ∷ 105 ∷ 33 ∷ [] }

valid : IsValid header
valid = record {
  version_ihl_in = omega arith;
  type_of_service_in = omega arith;
  total_length_in = omega arith;
  identification_in = omega arith;
  flags_fragment_offset_in = omega arith;
  ttl_in = omega arith;
  protocol_in = omega arith;
  checksum_in = omega arith;
  source_address_in = omega arith;
  destination_address_in = omega arith;
}

header_length-packet : header_length header ≡ 20
unfolding header_length tiny_cp.Ipv4.Header.ihl
header_length-packet = refl

header_len-packet : header_len header ≡ 20
unfolding header_len header_length tiny_cp.Ipv4.Header.ihl
header_len-packet = refl

version-packet : version header ≡ 4
unfolding version
version-packet = refl

write-Parses_example :
    ((write packet 64 (λ _. 0)).written ≡ header_len header + length packet.payload)
    × Parses packet (datagram packet 64 (λ _. 0))
write-Parses_example =
    write-Parses packet 64 (λ _. 0) valid version-packet (omega (arith, header_length-packet))
      (omega (arith, header_len-packet)) (omega (arith, header_len-packet))

set_checksum_verifies_example :
    ones_complement_checksum (serialize (set_checksum (compute_checksum header) header)) ≡ 0
set_checksum_verifies_example = set_checksum_verifies header valid
