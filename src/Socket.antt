-- ===== src/Socket.antt =====
-- TcpSocket.h and TcpSocket.cpp: the socket that a program holds, over the stack. A method that
-- waits on a condition variable gives `none` where its predicate is false, and changes nothing.
pub mod Invariant
pub mod Accepting
pub mod Handshake
pub mod Reading
pub mod Resuming
pub mod Writing
pub mod Opening
pub mod Connecting
mod Tests
pub mod Admission
use tiny_cp.Base.{
  ℕ, Bool, true, false, ◌&&◌, Option, none, some, List, [], ◌∷◌, ◌==◌, if◌then◌else◌, length, add32,
}
use tiny_cp.Address.{Ipv4Address, no_address}
use tiny_cp.Buffer
use tiny_cp.Buffer.{Counted, Bytes}
use tiny_cp.Tcb.{Tcb, TcpState, set_state, max_ipv4_packet_size}
use tiny_cp.Stack.State.{
  Host, TcpStack, Sized, get_tcb, put_tcb, add_dirty_tcb, bind_socket, generate_random_uint32,
}
use tiny_cp.Stack.Close.{close_connection, complete_address, register_connection}

-- `socket_id` is 0 for a socket that was never bound.
pub record TcpSocket : Type 0 where
  pub socket_id : ℕ

abbrev pub new_socket : TcpSocket
new_socket = record { socket_id = 0 }

-- A socket, and the stack that the method leaves.
abbrev pub WithSocket : Type 0
WithSocket = record { socket : TcpSocket; stack : TcpStack }

-- CLOSED without a block.
unfoldable pub state : TcpSocket → TcpStack → TcpState
state k s = elim (get_tcb k.socket_id s) [ none ↦ TcpState.closed | some tcb ↦ tcb.current_state ]

-- `bind` behind the creation of its block.
unfoldable pub number_block : Host → ℕ → Tcb → TcpStack → TcpStack
number_block host id tcb s =
    let drawn = generate_random_uint32 host s in
    put_tcb id (record tcb { snd = record (tcb.snd) { iss = drawn.number; nxt = drawn.number } })
      drawn.stack

-- The address and the port are filled in as in `register_connection`.
unfoldable pub bind : Host → Ipv4Address → TcpStack → WithSocket
bind host addr s =
    let own = complete_address host addr s in
    let bound = bind_socket own.addr own.stack in
    record {
      socket = record { socket_id = bound.id };
      stack = elim (get_tcb bound.id bound.stack) [
        | none ↦ bound.stack
        | some tcb ↦ number_block host bound.id tcb bound.stack
      ];
    }

abbrev pub is_closed : TcpState → Bool
is_closed TcpState.closed = true
is_closed _ = false

abbrev pub is_listen : TcpState → Bool
is_listen TcpState.listen = true
is_listen _ = false

unfoldable pub listen : TcpSocket → TcpStack → TcpStack
listen k s = elim (get_tcb k.socket_id s) [
  | none ↦ s
  | some tcb ↦
      if is_closed tcb.current_state
      then put_tcb k.socket_id (set_state TcpState.listen tcb) s
      else s
]

-- The block from which the SYN is sent.
unfoldable pub opening : ℕ → Tcb → Tcb
opening iss tcb =
    set_state TcpState.syn_sent
      (record tcb { snd = record (tcb.snd) { iss = iss; una = iss; nxt = add32 iss 1 } })

-- `connect` behind the registration.
unfoldable pub queue_syn : Host → ℕ → Tcb → TcpStack → TcpStack
queue_syn host id tcb s =
    let drawn = generate_random_uint32 host s in
    add_dirty_tcb id (put_tcb id (opening drawn.number tcb) drawn.stack)

unfoldable pub own_address : Option Tcb → Ipv4Address
own_address none = no_address
own_address (some tcb) = tcb.src_address

-- `connect` up to its wait; behind the wait it only writes to the log.
unfoldable pub start_connect : Host → Ipv4Address → TcpSocket → TcpStack → WithSocket
start_connect host addr k s =
    let local_addr = own_address (get_tcb k.socket_id s) in
    let made = register_connection host local_addr addr k.socket_id s in
    record {
      socket = record { socket_id = made.id };
      stack = elim (get_tcb made.id made.stack) [
        | none ↦ made.stack
        | some tcb ↦ queue_syn host made.id tcb made.stack
      ];
    }

-- The predicate of the wait.
abbrev pub ends_connect : TcpState → Bool
ends_connect TcpState.established = true
ends_connect TcpState.closed = true
ends_connect _ = false

unfoldable pub connect_returns : TcpSocket → TcpStack → Bool
connect_returns k s = elim (get_tcb k.socket_id s) [
  | none ↦ false
  | some tcb ↦ ends_connect tcb.current_state
]

-- The front of the queue of a listener; an empty one makes the caller wait.
unfoldable pub take_child : ℕ → Tcb → List ℕ → TcpStack → Option WithSocket
take_child id tcb [] s = none
take_child id tcb (child_id ∷ rest) s = some (record {
  socket = record { socket_id = child_id };
  stack = put_tcb id (record tcb { accept_queue = rest }) s;
})

unfoldable pub accept : TcpSocket → TcpStack → Option WithSocket
accept k s = elim (get_tcb k.socket_id s) [
  | none ↦ some (record { socket = new_socket; stack = s })
  | some tcb ↦
      if is_listen tcb.current_state
      then take_child k.socket_id tcb tcb.accept_queue s
      else some (record { socket = new_socket; stack = s })
]

-- What `send` does once the buffer has taken its bytes.
unfoldable pub sent : ℕ → Tcb → TcpStack → Option Counted → Option Sized
sent id tcb s none = none
sent id tcb s (some written) = some (record {
  size = written.count;
  stack = add_dirty_tcb id (put_tcb id (record tcb { send_buffer = written.after }) s);
})

unfoldable pub send : TcpSocket → List ℕ → TcpStack → Option Sized
send k data_bytes s = elim (get_tcb k.socket_id s) [
  | none ↦ some (record { size = 0; stack = s })
  | some tcb ↦ sent k.socket_id tcb s (Buffer.write max_ipv4_packet_size tcb.send_buffer data_bytes)
]

-- The count that `recv` returns, the bytes in the caller's span, and the stack.
abbrev pub Read : Type 0
Read = record { size : ℕ; bytes : List ℕ; stack : TcpStack }

-- The states in which no more bytes come.
abbrev pub at_end : TcpState → Bool
at_end TcpState.close_wait = true
at_end TcpState.last_ack = true
at_end TcpState.closed = true
at_end _ = false

unfoldable pub received : ℕ → Tcb → TcpStack → Option Bytes → Option Read
received id tcb s none = none
received id tcb s (some got) =
    let bytes_read = length got.bytes in
    some (record {
      size = if bytes_read == 0 && at_end tcb.current_state then 0 else bytes_read;
      bytes = got.bytes;
      stack = put_tcb id (record tcb { recv_buffer = got.after }) s;
    })

-- `n` is the size of the caller's span.
unfoldable pub recv : TcpSocket → ℕ → TcpStack → Option Read
recv k n s = elim (get_tcb k.socket_id s) [
  | none ↦ some (record { size = 0; bytes = []; stack = s })
  | some tcb ↦ received k.socket_id tcb s (Buffer.read max_ipv4_packet_size tcb.recv_buffer n)
]

unfoldable pub close : Host → TcpSocket → TcpStack → TcpStack
close host k s = if k.socket_id == 0 then s else (close_connection host k.socket_id s).stack

-- The stack as a method leaves it, also where its thread waits.
unfoldable pub left_by : {A : Type 0} → (A → TcpStack) → TcpStack → Option A → TcpStack
left_by stack_in s none = s
left_by stack_in s (some out) = stack_in out

abbrev pub after_accept : TcpSocket → TcpStack → TcpStack
after_accept k s = left_by (λ (o : WithSocket). o.stack) s (accept k s)

abbrev pub after_send : TcpSocket → List ℕ → TcpStack → TcpStack
after_send k data_bytes s = left_by (λ (o : Sized). o.stack) s (send k data_bytes s)

abbrev pub after_recv : TcpSocket → ℕ → TcpStack → TcpStack
after_recv k n s = left_by (λ (o : Read). o.stack) s (recv k n s)
