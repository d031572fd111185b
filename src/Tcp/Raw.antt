-- ===== src/Tcp/Raw.antt =====
-- The class `TcpHeader`: the getters that give the fields as they lie, in network byte order.
use tiny_cp.Base.{ℕ}
use tiny_cp.Tcp.Header.{TcpHeader}

unfoldable pub source_port : TcpHeader → ℕ
source_port h = h.source_port

unfoldable pub dest_port : TcpHeader → ℕ
dest_port h = h.dest_port

unfoldable pub seq_num : TcpHeader → ℕ
seq_num h = h.seq_num

unfoldable pub ack_num : TcpHeader → ℕ
ack_num h = h.ack_num

unfoldable pub control : TcpHeader → ℕ
control h = h.control

unfoldable pub window : TcpHeader → ℕ
window h = h.window

unfoldable pub checksum : TcpHeader → ℕ
checksum h = h.checksum

unfoldable pub urgent_pointer : TcpHeader → ℕ
urgent_pointer h = h.urgent_pointer
