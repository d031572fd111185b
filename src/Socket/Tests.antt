-- ===== src/Socket/Tests.antt =====
-- The theorems on sockets, at a client and a server.
use tiny_cp.Base.{inr, add32, ℕ, ◌<◌, ◌≡◌, ◌≢◌, refl, inl, true, false, some, arith, [], ◌∷◌, u32}
use tiny_cp.Base.Map.{nat_eq, lookup}
use tiny_cp.Address.{Ipv4Address}
use tiny_cp.Buffer.{size}
use tiny_cp.Buffer.Invariant.{IsValid, empty-IsValid}
use tiny_cp.Buffer.Refinement.{contents}
use tiny_cp.Tcb.{Tcb, TcpState, new_tcb, max_ipv4_packet_size}
use tiny_cp.Tcp.View
use tiny_cp.Tcp.View.{TcpPacketView}
use tiny_cp.Tables.Sockets
use tiny_cp.Tables.Listeners
use tiny_cp.Wire.{be16, be32}
use tiny_cp.Stack.State.{TcpStack, Sized, get_tcb, new_stack}
use tiny_cp.Stack.Handlers.{
  handle_syn_sent_state, handle_syn_received_state, fin_in_established, payload_in_established,
}
use tiny_cp.Socket.{state, bind, start_connect, connect_returns, send}
use tiny_cp.Socket.Accepting.{accepted, accept_in_order}
use tiny_cp.Socket.Handshake.{connect_returns-handle_syn_sent_state}
use tiny_cp.Socket.Admission.{accept_returns-handle_syn_received_state}
use tiny_cp.Socket.Reading.{Reads, recv-fin_in_established}
use tiny_cp.Socket.Writing.{IsSent, send-IsSent}
use tiny_cp.Socket.Resuming.{WaitsForRead, payload_in_established-WaitsForRead}
use tiny_cp.Socket.Opening.{IsBound, filled, bind-IsBound}
use tiny_cp.Socket.Connecting.{IsOpening, start_connect-IsOpening}
use tiny_cp.Samples.{
  host, here, there, one_nonzero, three_nonzero, one_apart, first_socket, client_block, listener,
  client_stack, server_stack, client_found, listener_found,
}

listening : listener.current_state ≡ TcpState.listen
unfolding new_tcb
listening = refl

accept_in_order_example : accepted 5 first_socket server_stack ≡ 2 ∷ []
unfolding new_tcb
accept_in_order_example =
    accept_in_order 5 first_socket server_stack listener one_nonzero listener_found listening

-- `SYN` of 7 and `ACK` of 100, from port 80 to port 50000.
abbrev answer : TcpPacketView
answer =
    0 ∷ 80 ∷ 195 ∷ 80 ∷ 0 ∷ 0 ∷ 0 ∷ 7 ∷ 0 ∷ 0 ∷ 0 ∷ 100 ∷ 80 ∷ 18 ∷ 255 ∷ 255 ∷ 0 ∷ 0 ∷ 0 ∷ 0 ∷ []

is_syn : View.syn answer ≡ true
unfolding View.flag be16
is_syn = refl

is_ack : View.ack answer ≡ true
unfolding View.flag be16
is_ack = refl

acks_syn : View.ack_num_ntoh answer ≡ (client_block TcpState.syn_sent).snd.nxt
unfolding View.ack_num_ntoh be32 new_tcb
acks_syn = refl

connect_returns-handle_syn_sent_state_example :
    connect_returns first_socket
      (handle_syn_sent_state host 1 answer (client_stack TcpState.syn_sent)).stack
    ≡ true
connect_returns-handle_syn_sent_state_example =
    connect_returns-handle_syn_sent_state host first_socket answer (client_stack TcpState.syn_sent)
      (client_block TcpState.syn_sent) one_nonzero (client_found TcpState.syn_sent) is_ack acks_syn
      (inl is_syn)

-- A child of the listener, whose SYN of 99 is not acknowledged yet.
abbrev child : Tcb
child = record (new_tcb TcpState.syn_received here there) {
  id = 3;
  snd = record { una = 99; nxt = 100; wnd = 65535; up = 0; wl1 = 0; wl2 = 0; iss = 99 };
}

abbrev half_open : TcpStack
half_open = record server_stack {
  sockets = record { next_id = 4; sockets = (1, listener) ∷ (3, child) ∷ [] };
}

child_found : get_tcb 3 half_open ≡ some child
unfolding get_tcb Sockets.find_socket lookup new_tcb
child_found = refl

listener_there : get_tcb 1 half_open ≡ some listener
unfolding get_tcb Sockets.find_socket lookup new_tcb
listener_there = refl

bound_there : Listeners.find child.src_address.port half_open.listeners half_open.sockets ≡ 1
unfolding new_tcb Listeners.find Sockets.contains lookup
bound_there = refl

-- `ACK` of 100, from port 50000 to port 80.
abbrev last_ack : TcpPacketView
last_ack =
    195 ∷ 80 ∷ 0 ∷ 80 ∷ 0 ∷ 0 ∷ 0 ∷ 8 ∷ 0 ∷ 0 ∷ 0 ∷ 100 ∷ 80 ∷ 16 ∷ 255 ∷ 255 ∷ 0 ∷ 0 ∷ 0 ∷ 0 ∷ []

no_rst : View.rst last_ack ≡ false
unfolding View.flag be16
no_rst = refl

acks : View.ack last_ack ≡ true
unfolding View.flag be16
acks = refl

acks_child : View.ack_num_ntoh last_ack ≡ child.snd.nxt
unfolding View.ack_num_ntoh be32 new_tcb
acks_child = refl

accept_returns-handle_syn_received_state_example :
    let after = (handle_syn_received_state host 3 there last_ack half_open).stack in
    (state (record { socket_id = 3 }) after ≡ TcpState.established)
    × (accepted 2 first_socket after ≡ 2 ∷ 3 ∷ [])
unfolding new_tcb
accept_returns-handle_syn_received_state_example =
    accept_returns-handle_syn_received_state host there last_ack half_open 3 first_socket child
      listener three_nonzero one_nonzero one_apart child_found listener_there listening bound_there
      no_rst acks acks_child

empty_ring : IsValid max_ipv4_packet_size (client_block TcpState.established).send_buffer
unfolding new_tcb
empty_ring = empty-IsValid max_ipv4_packet_size (omega arith)

empty_recv : IsValid max_ipv4_packet_size (client_block TcpState.established).recv_buffer
unfolding new_tcb
empty_recv = empty-IsValid max_ipv4_packet_size (omega arith)

room : size (client_block TcpState.established).send_buffer < max_ipv4_packet_size
unfolding size new_tcb
room = omega arith

send-IsSent_example :
    (out : Sized) × (send first_socket (65 ∷ 66 ∷ 67 ∷ []) (client_stack TcpState.established)
      ≡ some out)
    × IsSent 1
        (65 ∷ 66 ∷ 67 ∷ [])
        (client_stack TcpState.established)
        (client_block TcpState.established)
        out
send-IsSent_example =
    send-IsSent first_socket (65 ∷ 66 ∷ 67 ∷ []) (client_stack TcpState.established)
      (client_block TcpState.established) one_nonzero (client_found TcpState.established) empty_ring
      room

-- `FIN` and `ACK`, of 100.
abbrev fin_segment : TcpPacketView
fin_segment =
    0 ∷ 80 ∷ 195 ∷ 80 ∷ 0 ∷ 0 ∷ 0 ∷ 8 ∷ 0 ∷ 0 ∷ 0 ∷ 100 ∷ 80 ∷ 17 ∷ 255 ∷ 255 ∷ 0 ∷ 0 ∷ 0 ∷ 0 ∷ []

recv-fin_in_established_example :
    let after =
      fin_in_established host 1 fin_segment
        (client_stack TcpState.established)
        (client_block TcpState.established) in
    (state first_socket after ≡ TcpState.close_wait)
    × Reads first_socket 10
        (contents max_ipv4_packet_size (client_block TcpState.established).recv_buffer)
        after
recv-fin_in_established_example =
    recv-fin_in_established host first_socket 10 fin_segment (client_stack TcpState.established)
      (client_block TcpState.established) one_nonzero empty_recv

new_ids : ◌≢◌ {A = ℕ} new_stack.sockets.next_id 0
new_ids = λ e. omega arith

-- A port and no address.
abbrev any_address : Ipv4Address
any_address = record { address = 0; port = 80 }

bind-IsBound_example :
    let out = bind host any_address new_stack in
    (out.socket.socket_id ≡ 1)
    × IsBound (filled host any_address new_stack) (u32 (host.random 0)) out
bind-IsBound_example = bind-IsBound host any_address new_stack new_ids

ids_left : ◌≢◌ {A = ℕ} (client_stack TcpState.closed).sockets.next_id 0
ids_left = λ e. omega arith

start_connect-IsOpening_example :
    let out = start_connect host here first_socket (client_stack TcpState.closed) in
    (out.socket.socket_id ≡ 1)
    × IsOpening (filled host there (client_stack TcpState.closed)) here (u32 (host.random 0)) [] out
unfolding new_tcb Sockets.contains lookup
start_connect-IsOpening_example =
    start_connect-IsOpening host here there first_socket (client_stack TcpState.closed) ids_left
      (inr (client_block TcpState.closed, client_found TcpState.closed, refl))

-- A client whose receive buffer is full of the letter A.
abbrev full : Tcb
full = record (client_block TcpState.established) {
  recv_buffer = record {
    is_forcefully_woken_up = false;
    read_pos = 0;
    write_pos = 0;
    curr_len = 65535;
    buffer = λ _. 65;
  };
}

full_valid : IsValid max_ipv4_packet_size full.recv_buffer
full_valid = record { read_in = omega arith; len_in = omega arith; aligned = refl }

full_size : size full.recv_buffer ≡ max_ipv4_packet_size
unfolding size
full_size = refl

-- Two of three bytes find the room that reading two makes.
payload_in_established-WaitsForRead_example :
    WaitsForRead host first_socket 2
      (add32 full.rcv.nxt 3)
      (1 ∷ 2 ∷ 3 ∷ [])
      (contents max_ipv4_packet_size full.recv_buffer)
      (payload_in_established host 1 (1 ∷ 2 ∷ 3 ∷ []) (client_stack TcpState.established) full)
payload_in_established-WaitsForRead_example =
    payload_in_established-WaitsForRead host first_socket 2 (1 ∷ 2 ∷ 3 ∷ [])
      (client_stack TcpState.established) full one_nonzero full_valid full_size refl (omega arith)
      (omega arith)
