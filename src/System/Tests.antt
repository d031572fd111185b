-- ===== src/System/Tests.antt =====
-- The theorems on whole runs, at a client and a server.
use tiny_cp.Base.{ℕ, ◌<◌, ◌≡◌, ◌≢◌, refl, true, false, some, arith, [], ◌∷◌, ◌++◌, take, u32}
use tiny_cp.Base.{List}
use tiny_cp.Base.Map.{nat_eq, lookup}
use tiny_cp.Buffer.{size, available_capacity}
use tiny_cp.Buffer.Invariant.{IsValid, empty-IsValid}
use tiny_cp.Buffer.Refinement.{contents}
use tiny_cp.Tcb.{Tcb, TcpState, new_tcb, max_ipv4_packet_size}
use tiny_cp.Tcb.Invariant as Block
use tiny_cp.Ipv4.View as IpView
use tiny_cp.Stack.Input.Transitions.{from_endpoint, to_endpoint, process_incoming_packet-Steps}
use tiny_cp.Stack.Handlers.Transitions.{Steps}
use tiny_cp.Tcp.View
use tiny_cp.Tcp.View.{TcpPacketView}
use tiny_cp.Tables.Sockets
use tiny_cp.Tables.Listeners
use tiny_cp.Tables.Connections
use tiny_cp.Tables.Connections.{connection_key_eq}
use tiny_cp.Tun.{Poll}
use tiny_cp.Wire.{be16, be32}
use tiny_cp.Stack.State.{TcpStack, new_stack, find_connections_tcb}
use tiny_cp.Stack.Output.{create_writer_tcp_packet, datagram_bytes}
use tiny_cp.Stack.Handlers.{returns, stack_of}
use tiny_cp.Stack.Input.{process_incoming_packet}
use tiny_cp.Stack.Daemon.{daemon_round}
use tiny_cp.Stack.Invariant as StackInvariant
use tiny_cp.Stack.Invariant.Round.{daemon_round-IsValid}
use tiny_cp.Socket.{bind}
use tiny_cp.Socket.Reading.{Reads}
use tiny_cp.Socket.Opening.{IsBound, filled, bind-IsBound}
use tiny_cp.System.{Reachable, step, here as stop, calls, binds, over}
use tiny_cp.System.Safety.{reachable-IsValid}
use tiny_cp.System.Transfer.{recv-datagram_bytes}
use tiny_cp.System.ThreeWay.{IsReady, IsConnected, three_way_handshake}
use tiny_cp.Samples.{
  host, here, there, here_in, there_in, one_nonzero, three_nonzero, one_apart, first_socket,
  client_block, listener, client_stack, server_stack, client_stack-IsValid, server_stack-IsValid,
  client_found, listener_found,
}

ready :
    IsReady
      (client_stack TcpState.syn_sent)
      server_stack
      first_socket
      first_socket
      (client_block TcpState.syn_sent)
      listener
unfolding new_tcb find_connections_tcb Connections.find Listeners.find Sockets.contains lookup
ready = record {
  client_valid = client_stack-IsValid TcpState.syn_sent;
  client_id = one_nonzero;
  client_found = client_found TcpState.syn_sent;
  client_state = refl;
  client_nxt = refl;
  client_routed = refl;
  server_valid = server_stack-IsValid;
  server_ids = three_nonzero;
  listener_id = one_nonzero;
  listener_apart = one_apart;
  listener_found = listener_found;
  listener_state = refl;
  listener_bound = refl;
  unknown = refl;
}

three_way_handshake_example :
    IsConnected host host
      (client_stack TcpState.syn_sent)
      server_stack
      first_socket
      first_socket
      (client_block TcpState.syn_sent)
      listener
three_way_handshake_example =
    three_way_handshake host host (client_stack TcpState.syn_sent) server_stack first_socket
      first_socket (client_block TcpState.syn_sent) listener ready

-- The peer of `client_block`, at the same endpoints the other way round.
abbrev peer : Tcb
peer = record (new_tcb TcpState.established here there) { id = 1 }

peer-IsValid : Block.IsValid peer
unfolding new_tcb
peer-IsValid =
    let v = Block.new_tcb-IsValid TcpState.established here_in there_in in omega (arith, v)

room : size (client_block TcpState.established).recv_buffer < max_ipv4_packet_size
unfolding size new_tcb
room = omega arith

ring : IsValid max_ipv4_packet_size (client_block TcpState.established).recv_buffer
unfolding new_tcb
ring = empty-IsValid max_ipv4_packet_size (omega arith)

routed :
    find_connections_tcb peer.src_address peer.dst_address (client_stack TcpState.established) ≡ 1
unfolding new_tcb find_connections_tcb Connections.find Sockets.contains lookup
routed = refl

open_state : (client_block TcpState.established).current_state ≡ TcpState.established
unfolding new_tcb
open_state = refl

recv-datagram_bytes_example :
    let p = create_writer_tcp_packet peer (65 ∷ 66 ∷ []) 7 in
    let tcb = client_block TcpState.established in
    let held =
      contents max_ipv4_packet_size tcb.recv_buffer
      ++ take (available_capacity max_ipv4_packet_size tcb.recv_buffer) (65 ∷ 66 ∷ []) in
    (m : ℕ) × (after : TcpStack) × (process_incoming_packet host
        (datagram_bytes host peer.src_address peer.dst_address p)
        (client_stack TcpState.established)
      ≡ returns m after)
    × Reads first_socket 10 held after
recv-datagram_bytes_example =
    recv-datagram_bytes host host peer (65 ∷ 66 ∷ []) 7 (client_stack TcpState.established)
      first_socket (client_block TcpState.established) 10 peer-IsValid (omega arith) (omega arith)
      (omega arith) one_nonzero routed (client_found TcpState.established) open_state ring room

daemon_round-IsValid_example : StackInvariant.IsValid (
    stack_of
      (daemon_round host (Poll.input (some (69 ∷ 0 ∷ [])) ∷ []) (client_stack TcpState.syn_sent)))
daemon_round-IsValid_example =
    daemon_round-IsValid host (Poll.input (some (69 ∷ 0 ∷ [])) ∷ [])
      (client_stack-IsValid TcpState.syn_sent)

new_ids : ◌≢◌ {A = ℕ} new_stack.sockets.next_id 0
new_ids = λ e. omega arith

-- A first socket, bound to port 80.
bound : IsBound (filled host here new_stack) (u32 (host.random 0)) (bind host here new_stack)
bound = (bind-IsBound host here new_stack new_ids).1

abbrev bound_run : Reachable host (over (bind host here new_stack).stack (returns 0 new_stack))
unfolding Reachable stack_of
bound_run = step (calls (returns 0 new_stack) (binds here here_in new_stack)) (stop _)

reachable-IsValid_example : Block.IsValid bound.new
unfolding over stack_of
reachable-IsValid_example =
    reachable-IsValid host (over (bind host here new_stack).stack (returns 0 new_stack))
      (bind host here new_stack).socket.socket_id bound_run bound.found

-- `SYN` of 7, from port 50000 to port 80.
abbrev syn_segment : TcpPacketView
syn_segment =
    195 ∷ 80 ∷ 0 ∷ 80 ∷ 0 ∷ 0 ∷ 0 ∷ 7 ∷ 0 ∷ 0 ∷ 0 ∷ 0 ∷ 80 ∷ 2 ∷ 255 ∷ 255 ∷ 0 ∷ 0 ∷ 0 ∷ 0 ∷ []

bound_here : Listeners.find here.port server_stack.listeners server_stack.sockets ≡ 1
unfolding new_tcb Listeners.find Sockets.contains lookup
bound_here = refl

is_syn : View.syn syn_segment ≡ true
unfolding View.flag be16
is_syn = refl

no_ack : View.ack syn_segment ≡ false
unfolding View.flag be16
no_ack = refl

-- A datagram of 10.0.0.2 to 10.0.0.3 with a segment that acknowledges the client's SYN.
abbrev answer_datagram : List ℕ
answer_datagram =
    69 ∷ 0 ∷ 0 ∷ 40 ∷ 0 ∷ 0 ∷ 0 ∷ 0 ∷ 255 ∷ 6 ∷ 0 ∷ 0 ∷ 10 ∷ 0 ∷ 0 ∷ 2 ∷ 10 ∷ 0 ∷ 0 ∷ 3 ∷ 0 ∷ 80
    ∷ 195 ∷ 80 ∷ 0 ∷ 0 ∷ 0 ∷ 7 ∷ 0 ∷ 0 ∷ 0 ∷ 100 ∷ 80 ∷ 18 ∷ 255 ∷ 255 ∷ 0 ∷ 0 ∷ 0 ∷ 0 ∷ []

two_nonzero : ◌≢◌ {A = ℕ} 2 0
two_nonzero = λ e. omega arith

one_apart_two : ◌≢◌ {A = ℕ} 1 2
one_apart_two = λ e. omega arith

answer_endpoints : (from_endpoint answer_datagram ≡ here) × (to_endpoint answer_datagram ≡ there)
unfolding IpView.source_address_ntoh IpView.destination_address_ntoh IpView.payload
    IpView.header_length IpView.total_length_ntoh View.source_port_ntoh View.dest_port_ntoh be16
    be32
answer_endpoints = (refl, refl)

answer_routed :
    find_connections_tcb
      (from_endpoint answer_datagram)
      (to_endpoint answer_datagram)
      (client_stack TcpState.syn_sent)
    ≡ 1
unfolding new_tcb find_connections_tcb Connections.find Sockets.contains lookup
answer_routed = rw (answer_endpoints.0, answer_endpoints.1) refl

process_incoming_packet-Steps_example :
    Steps 1 TcpState.syn_sent
      (stack_of (process_incoming_packet host answer_datagram (client_stack TcpState.syn_sent)))
unfolding new_tcb
process_incoming_packet-Steps_example =
    process_incoming_packet-Steps host answer_datagram (client_stack TcpState.syn_sent) 1
      (client_block TcpState.syn_sent) one_nonzero two_nonzero one_apart_two
      (client_found TcpState.syn_sent) answer_routed
