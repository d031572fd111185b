-- ===== src/Stack/Invariant/Segment.antt =====
-- The numbers that a segment gives, and the replies to it.
use tiny_cp.Base.{ℕ, ◌<◌, ◌^◌}
use tiny_cp.Wire.{be16-lt, be32-lt}
use tiny_cp.Tcb.{Tcb}
use tiny_cp.Tcp.View
use tiny_cp.Tcp.View.{TcpPacketView}
use tiny_cp.Stack.State.{Host, TcpStack}
use tiny_cp.Stack.Output.{Control, reply}
use tiny_cp.Stack.Invariant.{IsValid, net-IsValid}

pub seq_num_ntoh-lt : (v : TcpPacketView) → View.seq_num_ntoh v < 2 ^ 32
unfolding View.seq_num_ntoh
seq_num_ntoh-lt v = be32-lt v 4

pub ack_num_ntoh-lt : (v : TcpPacketView) → View.ack_num_ntoh v < 2 ^ 32
unfolding View.ack_num_ntoh
ack_num_ntoh-lt v = be32-lt v 8

pub window_ntoh-lt : (v : TcpPacketView) → View.window_ntoh v < 2 ^ 16
unfolding View.window_ntoh
window_ntoh-lt v = be16-lt v 14

pub reply-IsValid :
    (host : Host) (tcb : Tcb) (c : Control) (seq acked : ℕ) {s : TcpStack}
    → IsValid s
    → IsValid (reply host tcb c seq acked s).stack
unfolding reply
reply-IsValid host tcb c seq acked v = net-IsValid v _
