-- ===== src/Tcb.antt =====
-- TransmissionControlBlock.h: the states of a connection and the control block of a socket.
-- The mutex and the condition variable of a block hold no data; `notify_all` only wakes threads.
pub mod Invariant
pub mod Names
use tiny_cp.Base.{ℕ, Bool, false, List, []}
use tiny_cp.Address.{Ipv4Address}
use tiny_cp.Buffer.{BlockingBuffer, empty, force_wake_up}

-- `MAX_IPV4_PACKET_SIZE`, also the capacity of both buffers.
abbrev pub max_ipv4_packet_size : ℕ
max_ipv4_packet_size = 65535

pub data TcpState : Type 0 where
  closed listen syn_sent syn_received established fin_wait_1 fin_wait_2 close_wait closing last_ack
        time_wait :
      TcpState

-- `SND`
pub record SendSequence : Type 0 where
  pub una : ℕ
  pub nxt : ℕ
  pub wnd : ℕ
  pub up : ℕ
  pub wl1 : ℕ
  pub wl2 : ℕ
  pub iss : ℕ

-- `RCV`
pub record ReceiveSequence : Type 0 where
  pub nxt : ℕ
  pub wnd : ℕ
  pub up : ℕ
  pub irs : ℕ

-- Times are in milliseconds. `retransmit_attempts` is an `int32_t`: it stands for its 32-bit
-- pattern, and one more than 2^31 - 1, which C++ leaves undefined, goes on with the next pattern.
pub record Tcb : Type 0 where
  pub last_written : ℕ
  pub has_received_ack : Bool
  pub id : ℕ
  pub current_state : TcpState
  pub accept_queue : List ℕ
  pub src_address : Ipv4Address
  pub dst_address : Ipv4Address
  pub snd : SendSequence
  pub rcv : ReceiveSequence
  pub rto : ℕ
  pub retransmit_attempts : ℕ
  pub user_timeout : ℕ
  pub send_buffer : BlockingBuffer
  pub recv_buffer : BlockingBuffer

-- The constructor with a state and two addresses; `last_written` starts at the epoch.
unfoldable pub new_tcb : TcpState → Ipv4Address → Ipv4Address → Tcb
new_tcb state src dst = record {
  last_written = 0;
  has_received_ack = false;
  id = 0;
  current_state = state;
  accept_queue = [];
  src_address = src;
  dst_address = dst;
  snd = record { una = 0; nxt = 0; wnd = 65535; up = 0; wl1 = 0; wl2 = 0; iss = 0 };
  rcv = record { nxt = 0; wnd = 65535; up = 0; irs = 0 };
  rto = 500;
  retransmit_attempts = 0;
  user_timeout = 0;
  send_buffer = empty;
  recv_buffer = empty;
}

unfoldable pub set_state : TcpState → Tcb → Tcb
set_state state tcb = record tcb { current_state = state }

-- The state in which `close()` leaves a block.
unfoldable pub closing_state : TcpState → TcpState
closing_state TcpState.established = TcpState.fin_wait_1
closing_state _ = TcpState.last_ack

-- `close()`: wakes both buffers, then sets the state.
unfoldable pub close : Tcb → Tcb
close tcb = record tcb {
  recv_buffer = force_wake_up tcb.recv_buffer;
  send_buffer = force_wake_up tcb.send_buffer;
  current_state = closing_state tcb.current_state;
}
