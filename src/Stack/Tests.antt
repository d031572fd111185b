-- ===== src/Stack/Tests.antt =====
-- The theorems on the stack, at a connection between two endpoints.
mod Handling
use tiny_cp.Base.{
  ℕ, ◌+◌, ◌<◌, ◌≤◌, ◌≡◌, ◌≢◌, ◌⊎◌, inl, refl, true, false, none, some, [], ◌∷◌, arith, length,
  htonl, add32,
}
use tiny_cp.Base.Map.{lookup}
use tiny_cp.Address.{Ipv4Address}
use tiny_cp.Buffer.{size}
use tiny_cp.Buffer.Invariant.{IsValid, empty-IsValid}
use tiny_cp.Tcb.{Tcb, TcpState, new_tcb, set_state, closing_state, max_ipv4_packet_size}
use tiny_cp.Tcp.Packet
use tiny_cp.Tcp.Packet.{TcpPacket}
use tiny_cp.Tcp.View
use tiny_cp.Tcp.View.{TcpPacketView}
use tiny_cp.Tcp.Mirror
use tiny_cp.Tables.Sockets
use tiny_cp.Tables.Listeners
use tiny_cp.Wire.{be16, be32}
use tiny_cp.Tables.Connections
use tiny_cp.Tables.Connections.{connection_key_eq, key}
use tiny_cp.Stack.State.{Host, TcpStack, new_stack, get_tcb, put_tcb, find_connections_tcb}
use tiny_cp.Stack.Output.{
  ack_only, syn_ack, control_header, writer_header, segment_bytes, datagram_bytes,
}
use tiny_cp.Address.{IsEndpoint}
use tiny_cp.Stack.Delivery.{process_incoming_packet-datagram_bytes}
use tiny_cp.Stack.Segments.{Says, control_header-Says, writer_header-Says, Says-IsSegment}
use tiny_cp.Stack.Send.{in_flight, next_bytes, send_next, process_tcb}
use tiny_cp.Stack.Send.Window.{IsSending, send_next_window}
use tiny_cp.Stack.Ports.{allocate_ephemeral_port}
use tiny_cp.Stack.Ports.Range.{IsFree, allocate_ephemeral_port-IsFree}
use tiny_cp.Stack.Handlers.{waits, ack_taken, payload_in_established, last_ack_segment}
use tiny_cp.Stack.Handlers.Payload.{
  ReturnsTook, payload_in_established_took, payload_in_established_waits,
}
use tiny_cp.Stack.Handlers.Acknowledgement.{acked_by, ack_taken-IsSending}
use tiny_cp.Buffer.Refinement.{contents}
use tiny_cp.Base.{◌-◌, drop, ◌^◌}
use tiny_cp.Stack.Handlers.Teardown.{last_ack_segment_leaks}
use tiny_cp.Stack.Input.{process_incoming_packet, route}
use tiny_cp.Stack.Close.{close_connection}
use tiny_cp.Tcb.Invariant as Block
use tiny_cp.Stack.Invariant as Valid
use tiny_cp.Stack.Close.Fin.{HasClosing, close_connection-Closing}

abbrev host : Host
host = record {
  os = record { write = λ bytes. some (length bytes); interface_address = none };
  tun_device = record { is_open = true };
  random = λ n. n + 1000;
  stack_memory = λ _. 0;
}

abbrev here : Ipv4Address
here = record { address = 0x0A000002; port = 80 }

abbrev there : Ipv4Address
there = record { address = 0x0A000003; port = 50000 }

here_in : IsEndpoint here
here_in = record { address_in = omega arith; port_in = omega arith }

there_in : IsEndpoint there
there_in = record { address_in = omega arith; port_in = omega arith }

-- A block in the given state whose send buffer holds three bytes.
abbrev block : TcpState → Tcb
block state = record (new_tcb state here there) {
  id = 1;
  snd = record { una = 100; nxt = 100; wnd = 2; up = 0; wl1 = 0; wl2 = 0; iss = 99 };
  send_buffer = record {
    is_forcefully_woken_up = false;
    read_pos = 0;
    write_pos = 3;
    curr_len = 3;
    buffer = λ i. 65 + i;
  };
}

abbrev connected : TcpState → TcpStack
connected state = record new_stack {
  sockets = record { next_id = 2; sockets = (1, block state) ∷ [] };
  connections = (key there here, 1) ∷ [];
}

one_nonzero : ◌≢◌ {A = ℕ} 1 0
one_nonzero = λ e. omega arith

abbrev data_packet : TcpPacket
data_packet = record {
  header = writer_header (block TcpState.established) 100;
  payload = 65 ∷ 66 ∷ [];
}

data_packet-Says :
    Says data_packet.header
      (block TcpState.established)
      ack_only
      100
      (block TcpState.established).rcv.nxt
unfolding new_tcb
data_packet-Says =
    writer_header-Says (block TcpState.established) 100 here_in there_in (omega arith) (omega arith)

process_incoming_packet-datagram_bytes_example :
    let view = segment_bytes host here there data_packet in
    (process_incoming_packet host (datagram_bytes host here there data_packet) new_stack
      ≡ route host here there view new_stack)
    × (View.payload view ≡ data_packet.payload)
    × Mirror.Agrees view (Packet.outgoing data_packet (htonl here.address) (htonl there.address))
unfolding new_tcb
process_incoming_packet-datagram_bytes_example =
    process_incoming_packet-datagram_bytes host host here there data_packet new_stack here_in
      there_in (Says-IsSegment (65 ∷ 66 ∷ []) data_packet-Says (omega arith))

sending : IsSending (block TcpState.established)
unfolding IsSending in_flight size
sending = (
  record { read_in = omega arith; len_in = omega arith; aligned = refl },
  omega arith,
  omega arith,
  omega arith,
)

send_next_window_example :
    let tcb = block TcpState.established in
    let f = send_next host 1 tcb (connected TcpState.established) in
    let n = length (next_bytes tcb) in
    IsSending f.tcb
    × (((f.tcb ≡ tcb)
          × (f.stack ≡ connected TcpState.established)
          × ((tcb.snd.wnd ≤ in_flight tcb) ⊎ (size tcb.send_buffer ≡ in_flight tcb)))
        ⊎ ((0 < n)
            × (n ≤ 1460)
            × (in_flight f.tcb ≡ in_flight tcb + n)
            × (in_flight f.tcb ≤ tcb.snd.wnd)))
send_next_window_example =
    send_next_window host 1 (block TcpState.established) (connected TcpState.established) sending

allocate_ephemeral_port-IsFree_example :
    IsFree
      (λ port. Listeners.contains port [] new_stack.sockets)
      (allocate_ephemeral_port new_stack).port
    ⊎ ((p : ℕ) → 49152 ≤ p → p < 65535 → Listeners.contains p [] new_stack.sockets ≡ true)
allocate_ephemeral_port-IsFree_example = allocate_ephemeral_port-IsFree new_stack

found_block : (state : TcpState) → get_tcb 1 (connected state) ≡ some (block state)
unfolding get_tcb Sockets.find_socket lookup
found_block state = refl

pub block-IsValid : Block.IsValid (block TcpState.established)
unfolding new_tcb
block-IsValid =
    let fresh = empty-IsValid 65535 (omega arith) in
    let ring : IsValid 65535 (block TcpState.established).send_buffer = record {
      read_in = omega arith;
      len_in = omega arith;
      aligned = refl;
    } in
    record {
      src_in = here_in;
      dst_in = there_in;
      una_in = omega arith;
      snd_nxt_in = omega arith;
      iss_in = omega arith;
      wnd_in = omega arith;
      rcv_nxt_in = omega arith;
      irs_in = omega arith;
      attempts_in = omega arith;
      send_ring = ring;
      recv_ring = fresh;
    }

connected-IsValid : Valid.IsValid (connected TcpState.established)
unfolding Valid.Valid
connected-IsValid = record { blocks = (block-IsValid, tt); next_port_in = omega arith }

close_connection-Closing_example :
    HasClosing host 1
      (process_tcb host 1 (block TcpState.established) (connected TcpState.established))
      (closing_state TcpState.established)
      (close_connection host 1 (connected TcpState.established)).stack
unfolding new_tcb
close_connection-Closing_example =
    close_connection-Closing host 1 (connected TcpState.established) (block TcpState.established)
      one_nonzero connected-IsValid (found_block TcpState.established) (inl refl)
