-- ===== src/Samples.antt =====
-- Two hosts, a listening socket and a connecting one, at which theorems are tried out.
use tiny_cp.Base.{ℕ, ◌+◌, ◌≡◌, ◌≢◌, refl, true, none, some, [], ◌∷◌, length, arith}
use tiny_cp.Base.Map.{lookup}
use tiny_cp.Address.{Ipv4Address, IsEndpoint, no_address, no_address-IsEndpoint}
use tiny_cp.Buffer.Invariant as Ring
use tiny_cp.Tcb.{Tcb, TcpState, SendSequence, new_tcb, max_ipv4_packet_size}
use tiny_cp.Tcb.Invariant as Block
use tiny_cp.Tables.Sockets
use tiny_cp.Tables.Connections.{key}
use tiny_cp.Stack.State.{Host, TcpStack, new_stack, get_tcb}
use tiny_cp.Stack.Invariant.{IsValid, Valid}
use tiny_cp.Socket.{TcpSocket}

abbrev pub host : Host
host = record {
  os = record { write = λ bytes. some (length bytes); interface_address = none };
  tun_device = record { is_open = true };
  random = λ n. n + 1000;
  stack_memory = λ _. 0;
}

abbrev pub here : Ipv4Address
here = record { address = 0x0A000002; port = 80 }

abbrev pub there : Ipv4Address
there = record { address = 0x0A000003; port = 50000 }

pub here_in : IsEndpoint here
here_in = record { address_in = omega arith; port_in = omega arith }

pub there_in : IsEndpoint there
there_in = record { address_in = omega arith; port_in = omega arith }

pub one_nonzero : ◌≢◌ {A = ℕ} 1 0
one_nonzero = λ e. omega arith

pub three_nonzero : ◌≢◌ {A = ℕ} 3 0
three_nonzero = λ e. omega arith

pub one_apart : ◌≢◌ {A = ℕ} 1 3
one_apart = λ e. omega arith

-- The first socket of a stack.
abbrev pub first_socket : TcpSocket
first_socket = record { socket_id = 1 }

abbrev pub numbers : SendSequence
numbers = record { una = 99; nxt = 100; wnd = 65535; up = 0; wl1 = 0; wl2 = 0; iss = 99 }

-- A block of `there`, connected or connecting to `here`.
abbrev pub client_block : TcpState → Tcb
client_block state = record (new_tcb state there here) { id = 1; snd = numbers }

-- A socket that listens at `here`, with a child that waits to be accepted.
abbrev pub listener : Tcb
listener = record (new_tcb TcpState.listen here no_address) { id = 1; accept_queue = 2 ∷ [] }

abbrev pub client_stack : TcpState → TcpStack
client_stack state = record new_stack {
  sockets = record { next_id = 2; sockets = (1, client_block state) ∷ [] };
  connections = (key here there, 1) ∷ [];
}

abbrev pub server_stack : TcpStack
server_stack = record new_stack {
  sockets = record { next_id = 3; sockets = (1, listener) ∷ [] };
  listeners = (80, 1) ∷ [];
}

pub fresh_ring :
    (state : TcpState) (src dst : Ipv4Address)
    → Ring.IsValid max_ipv4_packet_size (new_tcb state src dst).send_buffer
unfolding new_tcb
fresh_ring state src dst = Ring.empty-IsValid max_ipv4_packet_size (omega arith)

pub client_block-IsValid : (state : TcpState) → Block.IsValid (client_block state)
unfolding new_tcb
client_block-IsValid state =
    let fresh = Ring.empty-IsValid max_ipv4_packet_size (omega arith) in
    record {
      src_in = there_in;
      dst_in = here_in;
      una_in = omega arith;
      snd_nxt_in = omega arith;
      iss_in = omega arith;
      wnd_in = omega arith;
      rcv_nxt_in = omega arith;
      irs_in = omega arith;
      attempts_in = omega arith;
      send_ring = fresh;
      recv_ring = fresh;
    }

pub client_stack-IsValid : (state : TcpState) → IsValid (client_stack state)
unfolding Valid
client_stack-IsValid state = record {
  blocks = (client_block-IsValid state, tt);
  next_port_in = omega arith;
}

pub server_stack-IsValid : IsValid server_stack
unfolding Valid new_tcb
server_stack-IsValid =
    let v = Block.new_tcb-IsValid TcpState.listen here_in no_address-IsEndpoint in
    record { blocks = (omega (arith, v), tt); next_port_in = omega arith }

pub client_found : (state : TcpState) → get_tcb 1 (client_stack state) ≡ some (client_block state)
unfolding get_tcb Sockets.find_socket lookup
client_found state = refl

pub listener_found : get_tcb 1 server_stack ≡ some listener
unfolding get_tcb Sockets.find_socket lookup
listener_found = refl
