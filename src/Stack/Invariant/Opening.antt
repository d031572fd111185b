-- ===== src/Stack/Invariant/Opening.antt =====
-- The handlers up to `ESTABLISHED` keep the blocks valid.
use tiny_cp.Base.{
  ℕ, ◌<◌, ◌^◌, not, ◌&&◌, ◌||◌, ◌==◌, Option-cases, inl, inr, arith, Bool-cases, u32,
}
use tiny_cp.Address.{Ipv4Address, IsEndpoint}
use tiny_cp.Tcb.{Tcb, TcpState, set_state}
use tiny_cp.Tcb.Invariant as Block
use tiny_cp.Tcp.View
use tiny_cp.Tcp.View.{TcpPacketView}
use tiny_cp.Tables.Sockets
use tiny_cp.Tables.Listeners
use tiny_cp.Stack.State.{Host, TcpStack, get_tcb, put_tcb, generate_random_uint32, Sized}
use tiny_cp.Stack.Output.{reply, syn_ack, ack_only, rst_only}
use tiny_cp.Stack.Invariant.{
  IsValid, create_socket-Valid, destroy_socket-Valid, get_tcb-IsValid, put_tcb-IsValid, net-IsValid,
}
use tiny_cp.Stack.Invariant.Segment.{
  seq_num_ntoh-lt, ack_num_ntoh-lt, window_ntoh-lt, reply-IsValid,
}
use tiny_cp.Stack.Handlers.{
  with_tcb, handle_closed_reset_response, child_tcb, open_child, handle_passive_open_syn, syn_seen,
  acked_syn_seen, syn_sent_segment, handle_syn_sent_state, offer, abort_handshake, handshake_done,
  syn_received_segment, handle_syn_received_state,
}

-- A handler that is valid over the block that it finds.
pub with_tcb-IsValid :
    (id : ℕ) (s : TcpStack) (body : Tcb → Sized)
    → IsValid s
    → ((tcb : Tcb) → Block.IsValid tcb → IsValid (body tcb).stack)
    → IsValid (with_tcb id s body).stack
with_tcb-IsValid id s body v keep = elim (Option-cases (get_tcb id s)) [
  | inl absent ↦ rw (with_tcb, absent) v
  | inr (tcb, found) ↦ rw (with_tcb, found) (keep tcb (get_tcb-IsValid v id found))
]

pub handle_closed_reset_response-IsValid :
    (host : Host) (src dst : Ipv4Address) (packet : TcpPacketView) {s : TcpStack}
    → IsValid s
    → IsValid (handle_closed_reset_response host src dst packet s).stack
unfolding handle_closed_reset_response
handle_closed_reset_response-IsValid host src dst packet v = elim (Bool-cases (View.rst packet)) [
  | inl r ↦ rw r v
  | inr r ↦ elim (Bool-cases (View.ack packet)) [
    | inl a ↦ rw (r, a) (net-IsValid v _)
    | inr a ↦ rw (r, a) (net-IsValid v _)
  ]
]

child_tcb-IsValid :
    (packet : TcpPacketView) (iss : ℕ) {tcb : Tcb}
    → iss < 2 ^ 32
    → Block.IsValid tcb
    → Block.IsValid (child_tcb packet iss tcb)
unfolding child_tcb
child_tcb-IsValid packet iss iss_in v = omega (arith, seq_num_ntoh-lt packet, window_ntoh-lt packet)

open_child-IsValid :
    (host : Host) (src dst : Ipv4Address) (packet : TcpPacketView) (id : ℕ) (tcb : Tcb)
    (s : TcpStack)
    → IsValid s
    → Block.IsValid tcb
    → IsValid (open_child host src dst packet id tcb s).stack
unfolding open_child generate_random_uint32 reply put_tcb
open_child-IsValid host src dst packet id tcb s v w =
    let stored =
      put_tcb-IsValid v id _
        (child_tcb-IsValid packet (u32 (host.random s.draws)) (omega arith) w) in
    record { blocks = stored.blocks; next_port_in = v.next_port_in }

pub handle_passive_open_syn-IsValid :
    (host : Host) (src dst : Ipv4Address) (packet : TcpPacketView) (s : TcpStack)
    → IsEndpoint src
    → IsEndpoint dst
    → IsValid s
    → IsValid (handle_passive_open_syn host src dst packet s).stack
unfolding handle_passive_open_syn
handle_passive_open_syn-IsValid host src dst packet s src_in dst_in v =
    let made = Sockets.create_socket TcpState.syn_received dst src s.sockets in
    let created : IsValid (record s { sockets = made.table }) = record {
      blocks = create_socket-Valid TcpState.syn_received dst src s.sockets dst_in src_in v.blocks;
      next_port_in = v.next_port_in;
    } in
    elim (Bool-cases (
      not (Listeners.find dst.port s.listeners s.sockets == 0)
      && View.syn packet
      && not (View.ack packet))) [
        | inl opens ↦ rw opens (
            with_tcb-IsValid made.id _ _ created
              (λ tcb w. open_child-IsValid host src dst packet made.id tcb _ created w))
        | inr other ↦ rw other v
      ]

syn_seen-IsValid :
    (packet : TcpPacketView) {tcb : Tcb} → Block.IsValid tcb → Block.IsValid (syn_seen packet tcb)
unfolding syn_seen
syn_seen-IsValid packet v = omega (arith, seq_num_ntoh-lt packet, window_ntoh-lt packet)

acked_syn_seen-IsValid :
    (packet : TcpPacketView) {tcb : Tcb}
    → Block.IsValid tcb
    → Block.IsValid (acked_syn_seen packet tcb)
unfolding acked_syn_seen
acked_syn_seen-IsValid packet v =
    let seen = syn_seen-IsValid packet v in omega (arith, ack_num_ntoh-lt packet)

module _ (host : Host) (id : ℕ) (packet : TcpPacketView) {s : TcpStack} (v : IsValid s) where
  syn_sent_segment-IsValid :
      (tcb : Tcb) → Block.IsValid tcb → IsValid (syn_sent_segment host id packet s tcb).stack
  unfolding syn_sent_segment
  syn_sent_segment-IsValid tcb w =
      let seen = syn_seen-IsValid packet w in
      let acked = acked_syn_seen-IsValid packet w in
      let reset = put_tcb-IsValid v id _ (Block.set_state-IsValid TcpState.closed w) in
      let both = Block.set_state-IsValid TcpState.established acked in
      let one = Block.set_state-IsValid TcpState.syn_received seen in
      let same = View.ack_num_ntoh packet == tcb.snd.nxt in
      elim (Bool-cases (View.rst packet)) [
        | inl r ↦ elim (Bool-cases (View.ack packet && not (not same))) [
          | inl a ↦ rw (r, a) reset
          | inr a ↦ rw (r, a) v
        ]
        | inr r ↦ elim (Bool-cases (View.ack packet && not same)) [
          | inl w ↦ rw (r, w) (reply-IsValid host tcb rst_only (View.ack_num_ntoh packet) 0 v)
          | inr w ↦ elim (Bool-cases (View.syn packet && View.ack packet)) [
            | inl b ↦ rw (r, w, b) (reply-IsValid host _ ack_only _ _ (put_tcb-IsValid v id _ both))
            | inr b ↦ elim (Bool-cases (View.syn packet)) [
              | inl y ↦
                  rw (r, w, b, y) (reply-IsValid host _ syn_ack _ _ (put_tcb-IsValid v id _ one))
              | inr y ↦ rw (r, w, b, y) v
            ]
          ]
        ]
      ]

  pub handle_syn_sent_state-IsValid : IsValid (handle_syn_sent_state host id packet s).stack
  unfolding handle_syn_sent_state
  handle_syn_sent_state-IsValid = with_tcb-IsValid id s _ v syn_sent_segment-IsValid

offer-IsValid : (id : ℕ) (tcb : Tcb) (s : TcpStack) → IsValid s → IsValid (offer id tcb s)
unfolding offer
offer-IsValid id tcb s v =
    let listener_id = Listeners.find tcb.src_address.port s.listeners s.sockets in
    elim (Option-cases (get_tcb listener_id s)) [
      | inl absent ↦ rw (offer, absent) v
      | inr (listener, found) ↦
          let w = get_tcb-IsValid v listener_id found in
          rw (offer, found) (put_tcb-IsValid v listener_id _ (omega arith))
    ]

abort_handshake-IsValid :
    (id : ℕ) (src : Ipv4Address) (tcb : Tcb) (s : TcpStack)
    → IsValid s
    → Block.IsValid tcb
    → IsValid (abort_handshake id src tcb s)
unfolding abort_handshake
abort_handshake-IsValid id src tcb s v w =
    let closed = put_tcb-IsValid v id _ (Block.set_state-IsValid TcpState.closed w) in
    record { blocks = destroy_socket-Valid id _ closed.blocks; next_port_in = closed.next_port_in }

handshake_done-IsValid :
    (packet : TcpPacketView) {tcb : Tcb}
    → Block.IsValid tcb
    → Block.IsValid (handshake_done packet tcb)
unfolding handshake_done set_state
handshake_done-IsValid packet v = omega (arith, ack_num_ntoh-lt packet, window_ntoh-lt packet)

module _ (host : Host) (id : ℕ) (src : Ipv4Address) (packet : TcpPacketView) {s : TcpStack}
    (v : IsValid s) where
  syn_received_segment-IsValid :
      (tcb : Tcb)
      → Block.IsValid tcb
      → IsValid (syn_received_segment host id src packet s tcb).stack
  unfolding syn_received_segment
  syn_received_segment-IsValid tcb w =
      let ready = handshake_done packet tcb in
      let offered =
        offer-IsValid id ready _ (put_tcb-IsValid v id ready (handshake_done-IsValid packet w)) in
      elim (Bool-cases (View.rst packet)) [
        | inl r ↦ rw r (abort_handshake-IsValid id src tcb s v w)
        | inr r ↦
            elim (Bool-cases
              (not (View.ack packet) || not (View.ack_num_ntoh packet == tcb.snd.nxt))) [
                | inl a ↦ rw (r, a) v
                | inr a ↦ elim (Bool-cases (View.syn packet && View.ack packet)) [
                  | inl b ↦ rw (r, a, b) (reply-IsValid host _ ack_only _ _ offered)
                  | inr b ↦ rw (r, a, b) offered
                ]
              ]
      ]

  pub handle_syn_received_state-IsValid :
      IsValid (handle_syn_received_state host id src packet s).stack
  unfolding handle_syn_received_state
  handle_syn_received_state-IsValid = with_tcb-IsValid id s _ v syn_received_segment-IsValid
