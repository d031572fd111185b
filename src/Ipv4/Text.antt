-- ===== src/Ipv4/Text.antt =====
-- IPv4Packet.h: the setters that take a dotted quad, and `WriteIPv4Packet`. `inet_pton` is a
-- parameter: the address in network order, or nothing where the text is no address; the field then
-- stays as it was.
use tiny_cp.Base.{ℕ, Option, none, some}
use tiny_cp.Base.Memory.{Memory}
use tiny_cp.Text.{Bytes}
use tiny_cp.Ipv4.Header.{Ipv4Header}
use tiny_cp.Ipv4.Packet.{Ipv4Packet, Out, write}

abbrev pub InetPton : Type 0
InetPton = Bytes → Option ℕ

abbrev stored : Option ℕ → ℕ → ℕ
stored none old = old
stored (some address) old = address

unfoldable pub set_source_text : InetPton → Bytes → Ipv4Header → Ipv4Header
set_source_text inet_pton text h = record h {
  source_address = stored (inet_pton text) h.source_address;
}

unfoldable pub set_destination_text : InetPton → Bytes → Ipv4Header → Ipv4Header
set_destination_text inet_pton text h = record h {
  destination_address = stored (inet_pton text) h.destination_address;
}

abbrev pub write_ipv4_packet : ℕ → Memory → Ipv4Packet → Out
write_ipv4_packet capacity out packet = write packet capacity out
