-- ===== src/Ipv4/Packet.antt =====
-- The struct `IPv4Packet`: a header and a payload, written out as bytes.
use tiny_cp.Base.{ℕ, ◌+◌, List, ltb, u16, if◌then◌else◌, length}
use tiny_cp.Base.Memory.{Memory, copy_n}
use tiny_cp.Ipv4.Header.{
  Ipv4Header, header_length, set_total_length, set_checksum, compute_checksum, serialize,
}

pub record Ipv4Packet : Type 0 where
  pub header : Ipv4Header
  pub payload : List ℕ

unfoldable pub size : Ipv4Packet → ℕ
size p = 20 + length p.payload

-- The caller's span: the count that is returned, and what the span holds then.
pub record Out : Type 0 where
  pub written : ℕ
  pub out : Memory

-- `header.header_length() > 0 ? header.header_length() : sizeof(IPv4Header)`
unfoldable pub header_len : Ipv4Header → ℕ
header_len h = if ltb 0 (header_length h) then header_length h else 20

-- The copy of the header that goes out, with the total length and the checksum put in.
unfoldable pub outgoing : Ipv4Packet → Ipv4Header
outgoing p =
    let hdr = set_total_length (u16 (header_len p.header + length p.payload)) p.header in
    set_checksum (compute_checksum hdr) hdr

-- `capacity` is `out.size()`.
unfoldable pub write : Ipv4Packet → ℕ → Memory → Out
write p capacity out =
    let total = header_len p.header + length p.payload in
    if ltb capacity total then record { written = 0; out = out } else record {
      written = total;
      out = copy_n p.payload (copy_n (serialize (outgoing p)) out 0) (header_len p.header);
    }
