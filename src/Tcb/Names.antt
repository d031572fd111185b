-- ===== src/Tcb/Names.antt =====
-- TransmissionControlBlock.h: `TCP_STATE_TO_STRING`.
use tiny_cp.Base.{Option, none, some}
use tiny_cp.Text.{Bytes, codes}
use tiny_cp.Tcb.{TcpState}

-- `none` where the assertion fails: it allows the states up to LAST_ACK.
unfoldable pub tcp_state_to_string : TcpState → Option Bytes
tcp_state_to_string TcpState.closed = some (codes "CLOSED")
tcp_state_to_string TcpState.listen = some (codes "LISTEN")
tcp_state_to_string TcpState.syn_sent = some (codes "SYN_SENT")
tcp_state_to_string TcpState.syn_received = some (codes "SYN_RECEIVED")
tcp_state_to_string TcpState.established = some (codes "ESTABLISHED")
tcp_state_to_string TcpState.fin_wait_1 = some (codes "FIN_WAIT_1")
tcp_state_to_string TcpState.fin_wait_2 = some (codes "FIN_WAIT_2")
tcp_state_to_string TcpState.close_wait = some (codes "CLOSE_WAIT")
tcp_state_to_string TcpState.closing = some (codes "CLOSING")
tcp_state_to_string TcpState.last_ack = some (codes "LAST_ACK")
tcp_state_to_string TcpState.time_wait = none
