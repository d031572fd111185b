-- ===== src/Tcp/Tests.antt =====
-- The theorems on TCP headers and packets, at one packet.
use tiny_cp.Base.{
  ℕ, ◌+◌, ◌%◌, ◌≡◌, refl, true, List, [], ◌∷◌, ◌++◌, arith, length, ◌==◌, if◌then◌else◌,
}
use tiny_cp.Checksum.{compute_tcp_checksum}
use tiny_cp.Tcp.Header.{TcpHeader, serialize, flag, set_flag, data_offset, set_data_offset}
use tiny_cp.Tcp.Packet.{TcpPacket, header_len, outgoing, write_net}
use tiny_cp.Tcp.Mirror.{IsValid}
use tiny_cp.Tcp.RoundTrip.{Parses, segment, write_net-Parses}
use tiny_cp.Tcp.Checked.{outgoing_verifies}

abbrev header : TcpHeader
header = record {
  source_port = 0x5000;
  dest_port = 0x901F;
  seq_num = 7;
  ack_num = 9;
  control = 0x1050;
  window = 0xFFFF;
  checksum = 0;
  urgent_pointer = 0;
}

abbrev packet : TcpPacket
packet = record { header = header; payload = 72 ∷ 105 ∷ 33 ∷ [] }

valid : IsValid header
valid = record {
  source_port_in = omega arith;
  dest_port_in = omega arith;
  seq_num_in = omega arith;
  ack_num_in = omega arith;
  control_in = omega arith;
  window_in = omega arith;
  checksum_in = omega arith;
  urgent_pointer_in = omega arith;
}

header_len-packet : header_len header ≡ 20
unfolding header_len tiny_cp.Tcp.Header.header_length tiny_cp.Tcp.Header.data_offset
    tiny_cp.Base.htons
header_len-packet = refl

write_net-Parses_example :
    ((write_net packet 64 (λ _. 0) 1 2).written ≡ header_len header + length packet.payload)
    × Parses packet 1 2 (segment packet 64 (λ _. 0) 1 2)
write_net-Parses_example =
    write_net-Parses packet 64 (λ _. 0) 1 2 valid (omega (arith, header_len-packet))
      (omega (arith, header_len-packet))

outgoing_verifies_example :
    compute_tcp_checksum 1 2 (serialize (outgoing packet 1 2)) packet.payload ≡ 0
outgoing_verifies_example = outgoing_verifies packet 1 2 (omega arith) (omega arith)
