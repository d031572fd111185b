-- ===== src/Stack/Tests/Handling.antt =====
-- The theorems on the handlers in ESTABLISHED and LAST_ACK, at the same connection.
use tiny_cp.Base.{◌<◌, ◌≤◌, ◌≡◌, refl, true, none, some, [], ◌∷◌, arith}
use tiny_cp.Base.Map.{lookup}
use tiny_cp.Buffer.{size}
use tiny_cp.Buffer.Invariant.{IsValid, empty-IsValid}
use tiny_cp.Tcb.{Tcb, TcpState, new_tcb, set_state, max_ipv4_packet_size}
use tiny_cp.Tcp.View
use tiny_cp.Tcp.View.{TcpPacketView}
use tiny_cp.Tables.Sockets
use tiny_cp.Wire.{be16, be32}
use tiny_cp.Tables.Connections
use tiny_cp.Tables.Connections.{connection_key_eq, key}
use tiny_cp.Stack.State.{get_tcb, find_connections_tcb}
use tiny_cp.Stack.Send.{in_flight}
use tiny_cp.Stack.Send.{check_retransmissions}
use tiny_cp.Stack.Send.Retransmission.{IsOverdue, Resent, check_retransmissions-Resent}
use tiny_cp.Stack.State.{TcpStack, new_stack}
use tiny_cp.Tcb.Invariant as Block
use tiny_cp.Stack.Invariant as Valid
use tiny_cp.Stack.Tests.{block-IsValid}
use tiny_cp.Stack.Send.Window.{IsSending}
use tiny_cp.Stack.Handlers.{ack_taken, payload_in_established, last_ack_segment}
use tiny_cp.Stack.Handlers.Payload.{ReturnsTook, payload_in_established_took}
use tiny_cp.Stack.Handlers.Acknowledgement.{acked_by, ack_taken-IsSending}
use tiny_cp.Buffer.Refinement.{contents}
use tiny_cp.Base.{◌-◌, drop, ◌^◌}
use tiny_cp.Stack.Handlers.Teardown.{last_ack_segment_leaks}
use tiny_cp.Stack.Tests.{host, here, there, block, connected, one_nonzero}

empty_room : size (block TcpState.established).recv_buffer < max_ipv4_packet_size
unfolding size new_tcb
empty_room = omega arith

empty_valid : IsValid max_ipv4_packet_size (block TcpState.established).recv_buffer
unfolding new_tcb
empty_valid = empty-IsValid max_ipv4_packet_size (omega arith)

payload_in_established_took_example : ReturnsTook 1 (1 ∷ 2 ∷ []) (block TcpState.established) (
    payload_in_established host 1
      (1 ∷ 2 ∷ [])
      (connected TcpState.established)
      (block TcpState.established))
payload_in_established_took_example =
    payload_in_established_took host 1 (1 ∷ 2 ∷ []) (connected TcpState.established)
      (block TcpState.established) one_nonzero empty_valid empty_room

-- `ACK` of 100, from port 50000 to port 80.
abbrev last_ack : TcpPacketView
last_ack =
    195 ∷ 80 ∷ 0 ∷ 80 ∷ 0 ∷ 0 ∷ 0 ∷ 1 ∷ 0 ∷ 0 ∷ 0 ∷ 100 ∷ 80 ∷ 16 ∷ 255 ∷ 255 ∷ 0 ∷ 0 ∷ 0 ∷ 0 ∷ []

found_connection : find_connections_tcb there here (connected TcpState.last_ack) ≡ 1
unfolding find_connections_tcb Connections.find Sockets.contains lookup
found_connection = refl

no_reverse : lookup (key here there) (connected TcpState.last_ack).connections ≡ none
unfolding lookup
no_reverse = refl

acks : (View.ack last_ack ≡ true) × (View.ack_num_ntoh last_ack ≡ 100)
unfolding View.flag View.flags View.ack_num_ntoh be16 be32
acks = (refl, refl)

last_ack_segment_leaks_example :
    let after =
      (last_ack_segment 1 last_ack (connected TcpState.last_ack) (block TcpState.last_ack)).stack in
    (find_connections_tcb there here after ≡ 1)
    × (get_tcb 1 after ≡ some (set_state TcpState.closed (block TcpState.last_ack)))
unfolding new_tcb
last_ack_segment_leaks_example =
    last_ack_segment_leaks 1 last_ack (connected TcpState.last_ack) (block TcpState.last_ack)
      one_nonzero found_connection no_reverse acks.0 acks.1

-- Two of the three bytes of a block are in flight, and one is acknowledged.
abbrev half_sent : Tcb
half_sent = record (block TcpState.established) {
  snd = record { una = 99; nxt = 101; wnd = 2; up = 0; wl1 = 0; wl2 = 0; iss = 98 };
}

half_sent-IsSending : IsSending half_sent
unfolding IsSending in_flight size
half_sent-IsSending = (
  record { read_in = omega arith; len_in = omega arith; aligned = refl },
  omega arith,
  omega arith,
  omega arith,
)

one_acked : acked_by last_ack half_sent ≤ in_flight half_sent
unfolding in_flight View.ack_num_ntoh be16 be32
one_acked = omega arith

ack_number : View.ack_num_ntoh last_ack < 2 ^ 32
ack_number = omega (arith, acks.1)

ack_taken-IsSending_example :
    let new = ack_taken last_ack half_sent in
    IsSending new
    × (in_flight new ≡ in_flight half_sent - acked_by last_ack half_sent)
    × (contents max_ipv4_packet_size new.send_buffer
        ≡ drop (acked_by last_ack half_sent) (contents max_ipv4_packet_size half_sent.send_buffer))
    × (new.snd.wnd ≡ View.window_ntoh last_ack)
ack_taken-IsSending_example =
    ack_taken-IsSending last_ack half_sent ack_number half_sent-IsSending one_acked

-- Two of the three bytes are in flight, and were written a second ago.
abbrev flying : Tcb
flying = record (block TcpState.established) {
  snd = record ((block TcpState.established).snd) { nxt = 102 };
}

abbrev late : TcpStack
late = record new_stack {
  sockets = record { next_id = 2; sockets = (1, flying) ∷ [] };
  clock = 1000;
}

flying-IsValid : Block.IsValid flying
flying-IsValid = let v = block-IsValid in ground arith

late-IsValid : Valid.IsValid late
unfolding Valid.Valid
late-IsValid = record { blocks = (flying-IsValid, tt); next_port_in = omega arith }

flying-IsOverdue : IsOverdue 1000 flying
unfolding in_flight new_tcb
flying-IsOverdue = record {
  connected = refl;
  flying = omega arith;
  late = omega arith;
  held = omega arith;
}

check_retransmissions-Resent_example :
    let after = check_retransmissions host late in
    Resent host 1000 ((1, flying) ∷ []) late.net after.sockets.sockets after.net
check_retransmissions-Resent_example = check_retransmissions-Resent host late late-IsValid
