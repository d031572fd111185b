-- ===== src/System/Transfer.antt =====
-- Bytes on their way from the block that sends them to the thread that reads them.
use tiny_cp.Base.{
  ℕ, ◌^◌, ◌<◌, ◌≤◌, ◌≡◌, ◌≢◌, refl, ap, sym, subst, ◌∙◌, true, false, Bool-cases, inl, inr, some,
  arith, List, ◌++◌, length, take, ltb, sub32, is_positive,
}
use tiny_cp.Address.{Ipv4Address}
use tiny_cp.Buffer.{size, available_capacity}
use tiny_cp.Buffer.Invariant.{IsValid}
use tiny_cp.Buffer.Refinement.{contents}
use tiny_cp.Tcb.{Tcb, TcpState, max_ipv4_packet_size}
use tiny_cp.Tcb.Invariant as Block
use tiny_cp.Tcp.View
use tiny_cp.Tcp.View.{TcpPacketView}
use tiny_cp.Stack.State.{Host, TcpStack, get_tcb, find_connections_tcb}
use tiny_cp.Stack.Output.{
  ack_only, create_writer_tcp_packet, writer_header, segment_bytes, datagram_bytes,
}
use tiny_cp.Stack.Segments.{writer_header-Says}
use tiny_cp.Stack.Handlers.{
  returns, ack_taken, ack_in_established, payload_in_established, established_segment,
  handle_established_state,
}
use tiny_cp.Stack.Input.{process_incoming_packet, route, dispatch}
use tiny_cp.Stack.Input.Transitions.{route_known}
use tiny_cp.Socket.{TcpSocket}
use tiny_cp.Socket.Reading.{Reads, recv-payload_in_established}
use tiny_cp.System.Hearing.{heard}

-- An acknowledgement leaves the receive buffer alone.
recv_buffer-ack_in_established :
    (id : ℕ) (packet : TcpPacketView) (s : TcpStack) (tcb : Tcb)
    → (ack_in_established id packet s tcb).tcb.recv_buffer ≡ tcb.recv_buffer
unfolding ack_in_established ack_taken
recv_buffer-ack_in_established id packet s tcb = elim (Bool-cases (View.ack packet)) [
  | inl a ↦ elim (Bool-cases (is_positive (sub32 (View.ack_num_ntoh packet) tcb.snd.una))) [
    | inl p ↦ rw (a, p) refl
    | inr p ↦ rw (a, p) refl
  ]
  | inr a ↦ rw a refl
]

module _ (host : Host) (packet : TcpPacketView) (s : TcpStack) (id : ℕ) (tcb : Tcb) where
  handle_of_established :
      get_tcb id s ≡ some tcb
      → handle_established_state host id packet s ≡ established_segment host id packet s tcb
  unfolding handle_established_state
  handle_of_established found = rw (handle_established_state, found) refl

  route_established :
      (src dst : Ipv4Address)
      → id ≢ 0
      → find_connections_tcb src dst s ≡ id
      → get_tcb id s ≡ some tcb
      → tcb.current_state ≡ TcpState.established
      → route host src dst packet s ≡ established_segment host id packet s tcb
  unfolding dispatch
  route_established src dst h routed found state =
      route_known host packet s id tcb src dst h routed found
      ∙ ap (λ q. dispatch host id src dst packet q s) state
      ∙ handle_of_established found

  established_payload :
      View.fin packet ≡ false
      → 0 < length (View.payload packet)
      → let acked = ack_in_established id packet s tcb in
        established_segment host id packet s tcb
        ≡ payload_in_established host id (View.payload packet) acked.stack acked.tcb
  unfolding established_segment
  established_payload fin some_bytes =
      let more : ltb 0 (length (View.payload packet)) ≡ true = ground arith in rw (fin, more) refl

-- The bytes of a data segment reach the thread that reads at the other end: where the datagram of
-- a valid block arrives at the established block of its peer, with room in a valid receive buffer,
-- the handler returns, and `recv` there then returns at once, with the oldest of the bytes that
-- were waiting or came with the segment.
pub recv-datagram_bytes :
    (host receiver : Host) (sender : Tcb) (bytes : List ℕ) (seq : ℕ) (s : TcpStack) (k : TcpSocket)
    (tcb : Tcb) (n : ℕ)
    → Block.IsValid sender
    → seq < 2 ^ 32
    → 0 < length bytes
    → length bytes ≤ 65495
    → k.socket_id ≢ 0
    → find_connections_tcb sender.src_address sender.dst_address s ≡ k.socket_id
    → get_tcb k.socket_id s ≡ some tcb
    → tcb.current_state ≡ TcpState.established
    → IsValid max_ipv4_packet_size tcb.recv_buffer
    → size tcb.recv_buffer < max_ipv4_packet_size
    → let p = create_writer_tcp_packet sender bytes seq in
      let held =
        contents max_ipv4_packet_size tcb.recv_buffer
        ++ take (available_capacity max_ipv4_packet_size tcb.recv_buffer) bytes in
      (m : ℕ) × (after : TcpStack) × (process_incoming_packet receiver
          (datagram_bytes host sender.src_address sender.dst_address p)
          s
        ≡ returns m after)
      × Reads k n held after
unfolding create_writer_tcp_packet
recv-datagram_bytes host receiver sender bytes seq s k tcb n w seq_in some_bytes fits h routed found
      state ring room =
    let p = create_writer_tcp_packet sender bytes seq in
    let view = segment_bytes host sender.src_address sender.dst_address p in
    let says = writer_header-Says sender seq w.src_in w.dst_in seq_in w.rcv_nxt_in in
    let (arrived, hears) =
      heard host receiver sender (writer_header sender seq) ack_only seq sender.rcv.nxt bytes s
        w.src_in w.dst_in says fits in
    let acked = ack_in_established k.socket_id view s tcb in
    let same = recv_buffer-ack_in_established k.socket_id view s tcb in
    let taken =
      established_payload receiver view s k.socket_id tcb hears.fin
        (subst (λ xs. 0 < length xs) (sym hears.bytes) some_bytes) in
    let (m, after, returned, reads) =
      recv-payload_in_established receiver k n bytes acked.stack acked.tcb h
        (subst (IsValid max_ipv4_packet_size) (sym same) ring)
        (subst (λ b. size b < max_ipv4_packet_size) (sym same) room) some_bytes in
    (
      m,
      after,
      arrived
          ∙ route_established receiver view s k.socket_id tcb sender.src_address sender.dst_address
              h routed found state
          ∙ taken
          ∙ ap (λ xs. payload_in_established receiver k.socket_id xs acked.stack acked.tcb)
              hears.bytes
          ∙ returned,
      subst
          (λ b.
            Reads k n
              (contents max_ipv4_packet_size b
                ++ take (available_capacity max_ipv4_packet_size b) bytes)
              after)
          same reads,
    )
