-- ===== src/Tcb/Invariant.antt =====
-- What holds of a control block between two steps.
use tiny_cp.Base.{◌<◌, ◌^◌, arith}
use tiny_cp.Address.{Ipv4Address, IsEndpoint}
use tiny_cp.Buffer.Invariant as Ring
use tiny_cp.Tcb.{Tcb, TcpState, new_tcb, set_state, close, max_ipv4_packet_size}

-- Both its addresses and ports, its sequence numbers, its window and its count of retransmissions fit
-- their types, and both rings are valid.
pub record IsValid (tcb : Tcb) : Type 0 where
  pub src_in : IsEndpoint tcb.src_address
  pub dst_in : IsEndpoint tcb.dst_address
  pub una_in : tcb.snd.una < 2 ^ 32
  pub snd_nxt_in : tcb.snd.nxt < 2 ^ 32
  pub iss_in : tcb.snd.iss < 2 ^ 32
  pub wnd_in : tcb.snd.wnd < 2 ^ 16
  pub rcv_nxt_in : tcb.rcv.nxt < 2 ^ 32
  pub irs_in : tcb.rcv.irs < 2 ^ 32
  pub attempts_in : tcb.retransmit_attempts < 2 ^ 32
  pub send_ring : Ring.IsValid max_ipv4_packet_size tcb.send_buffer
  pub recv_ring : Ring.IsValid max_ipv4_packet_size tcb.recv_buffer

pub new_tcb-IsValid :
    (state : TcpState) {src dst : Ipv4Address}
    → IsEndpoint src
    → IsEndpoint dst
    → IsValid (new_tcb state src dst)
unfolding new_tcb
new_tcb-IsValid state v w =
    let fresh = Ring.empty-IsValid max_ipv4_packet_size (omega arith) in ground arith

pub set_state-IsValid : (state : TcpState) {tcb : Tcb} → IsValid tcb → IsValid (set_state state tcb)
unfolding set_state
set_state-IsValid state v = ground arith

pub close-IsValid : {tcb : Tcb} → IsValid tcb → IsValid (close tcb)
unfolding close
close-IsValid v =
    ground (arith, Ring.force_wake_up-IsValid v.send_ring, Ring.force_wake_up-IsValid v.recv_ring)
