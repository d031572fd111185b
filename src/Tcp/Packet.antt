-- ===== src/Tcp/Packet.antt =====
-- The struct `TcpPacket`: a header and a payload, written out as bytes.
use tiny_cp.Base.{ℕ, ◌+◌, List, ltb, ◌==◌, htonl, if◌then◌else◌, length}
use tiny_cp.Base.Memory.{Memory, copy_n}
use tiny_cp.Address.{Ipv4Address}
use tiny_cp.Tcp.Header.{
  TcpHeader, header_length, data_offset, set_data_offset, set_checksum, compute_checksum, serialize,
}

pub record TcpPacket : Type 0 where
  pub header : TcpHeader
  pub payload : List ℕ

unfoldable pub size : TcpPacket → ℕ
size p = 20 + length p.payload

-- The caller's span: its size, and what it holds.
pub record Out : Type 0 where
  pub written : ℕ
  pub out : Memory

-- `header.header_length() > 0 ? header.header_length() : sizeof(TcpHeader)`
unfoldable pub header_len : TcpHeader → ℕ
header_len h = if ltb 0 (header_length h) then header_length h else 20

-- `if (hdr.data_offset() == 0) hdr.set_data_offset(5)`
unfoldable pub sized : TcpHeader → TcpHeader
sized h = if data_offset h == 0 then set_data_offset 5 h else h

-- The copy of the header that goes out, with its checksum put in.
unfoldable pub outgoing : TcpPacket → ℕ → ℕ → TcpHeader
outgoing p src_ip_net dst_ip_net =
    let hdr = set_checksum 0 (sized p.header) in
    set_checksum (compute_checksum src_ip_net dst_ip_net p.payload hdr) hdr

-- The two copies into the span. Where the data offset is above 5 the bytes between the header and
-- the payload stay as they are.
unfoldable pub place : List ℕ → List ℕ → ℕ → Memory → Memory
place wire payload offset out = copy_n payload (copy_n wire out 0) offset

-- `write(out, src_ip_net, dst_ip_net)`; `capacity` is `out.size()`.
unfoldable pub write_net : TcpPacket → ℕ → Memory → ℕ → ℕ → Out
write_net p capacity out src_ip_net dst_ip_net =
    let total = header_len p.header + length p.payload in
    if ltb capacity total then record { written = 0; out = out } else record {
      written = total;
      out =
          place (serialize (outgoing p src_ip_net dst_ip_net)) p.payload (header_len p.header) out;
    }

-- `write(out, src, dst)`
unfoldable pub write : TcpPacket → ℕ → Memory → Ipv4Address → Ipv4Address → Out
write p capacity out src dst = write_net p capacity out (htonl src.address) (htonl dst.address)

-- `write(out)`: the checksum of the header is kept.
unfoldable pub write_as_is : TcpPacket → ℕ → Memory → Out
write_as_is p capacity out =
    let total = header_len p.header + length p.payload in
    if ltb capacity total then record { written = 0; out = out } else record {
      written = total;
      out = place (serialize (sized p.header)) p.payload (header_len p.header) out;
    }

-- The three overloads of `WriteTcpPacket`.
abbrev pub write_tcp_packet : ℕ → Memory → Ipv4Address → Ipv4Address → TcpPacket → Out
write_tcp_packet capacity out src dst packet = write packet capacity out src dst

abbrev pub write_tcp_packet_net : ℕ → Memory → ℕ → ℕ → TcpPacket → Out
write_tcp_packet_net capacity out src_ip_net dst_ip_net packet =
    write_net packet capacity out src_ip_net dst_ip_net

abbrev pub write_tcp_packet_as_is : ℕ → Memory → TcpPacket → Out
write_tcp_packet_as_is capacity out packet = write_as_is packet capacity out
