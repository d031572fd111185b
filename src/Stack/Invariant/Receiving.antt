-- ===== src/Stack/Invariant/Receiving.antt =====
-- The handler of `ESTABLISHED` keeps the blocks valid, also where its thread waits.
use tiny_cp.Base.{
  ℕ, Option-cases, inl, inr, arith, Bool-cases, List, length, ltb, sub32, is_positive,
}
use tiny_cp.Buffer
use tiny_cp.Buffer.Invariant as Ring
use tiny_cp.Tcb.{Tcb, TcpState, max_ipv4_packet_size}
use tiny_cp.Tcb.Invariant as Block
use tiny_cp.Tcp.View
use tiny_cp.Tcp.View.{TcpPacketView}
use tiny_cp.Stack.State.{Host, TcpStack, get_tcb}
use tiny_cp.Stack.Output.{ack_only}
use tiny_cp.Stack.Send.{has_sendable}
use tiny_cp.Stack.Invariant.{IsValid, get_tcb-IsValid, put_tcb-IsValid, add_dirty_tcb-IsValid}
use tiny_cp.Stack.Invariant.Segment.{
  seq_num_ntoh-lt, ack_num_ntoh-lt, window_ntoh-lt, reply-IsValid,
}
use tiny_cp.Stack.Handlers.{
  stack_of, fin_taken, fin_in_established, ack_taken, ack_in_established, payload_written,
  payload_in_established, resume, established_segment, handle_established_state,
}

fin_taken-IsValid :
    (packet : TcpPacketView) {tcb : Tcb} → Block.IsValid tcb → Block.IsValid (fin_taken packet tcb)
unfolding fin_taken
fin_taken-IsValid packet v =
    let seq = seq_num_ntoh-lt packet in
    let ack = ack_num_ntoh-lt packet in
    let window = window_ntoh-lt packet in
    elim (Bool-cases (View.ack packet)) [ inl a ↦ rw a (omega arith) | inr a ↦ rw a (omega arith) ]

ack_taken-IsValid :
    (packet : TcpPacketView) {tcb : Tcb} → Block.IsValid tcb → Block.IsValid (ack_taken packet tcb)
unfolding ack_taken
ack_taken-IsValid packet {tcb} v =
    let acked = sub32 (View.ack_num_ntoh packet) tcb.snd.una in
    let ring = Ring.discard-IsValid acked v.send_ring in
    let ack = ack_num_ntoh-lt packet in
    let window = window_ntoh-lt packet in
    elim (Bool-cases (is_positive acked)) [
      | inl p ↦ rw p (omega arith)
      | inr p ↦ rw p (omega arith)
    ]

module _ (host : Host) (id : ℕ) {s : TcpStack} (v : IsValid s) where
  fin_in_established-IsValid :
      (packet : TcpPacketView) (tcb : Tcb)
      → Block.IsValid tcb
      → IsValid (fin_in_established host id packet s tcb)
  unfolding fin_in_established
  fin_in_established-IsValid packet tcb w =
      let taken = fin_taken-IsValid packet w in
      let ring = Ring.force_wake_up-IsValid taken.recv_ring in
      let waiting = Block.set_state-IsValid TcpState.close_wait taken in
      put_tcb-IsValid (reply-IsValid host _ ack_only _ _ v) id _ (record {
        src_in = waiting.src_in;
        dst_in = waiting.dst_in;
        una_in = waiting.una_in;
        snd_nxt_in = waiting.snd_nxt_in;
        iss_in = waiting.iss_in;
        wnd_in = waiting.wnd_in;
        rcv_nxt_in = waiting.rcv_nxt_in;
        irs_in = waiting.irs_in;
        attempts_in = waiting.attempts_in;
        send_ring = waiting.send_ring;
        recv_ring = ring;
      })

  payload_written-IsValid :
      (payload : List ℕ) (tcb : Tcb)
      → Block.IsValid tcb
      → IsValid (stack_of (payload_written host id payload s tcb))
  unfolding stack_of payload_written
  payload_written-IsValid payload tcb w =
      elim (Option-cases (Buffer.write max_ipv4_packet_size tcb.recv_buffer payload)) [
        | inl full ↦ rw (stack_of, payload_written, full) (put_tcb-IsValid v id tcb w)
        | inr (out, room) ↦
            let ring = Ring.write-IsValid payload w.recv_ring room in
            let stored = record tcb { recv_buffer = out.after } in
            rw (stack_of, payload_written, room)
              (reply-IsValid host _ ack_only _ _
                (put_tcb-IsValid v id stored (omega (arith, w, ring))))
      ]

  payload_in_established-IsValid :
      (payload : List ℕ) (tcb : Tcb)
      → Block.IsValid tcb
      → IsValid (stack_of (payload_in_established host id payload s tcb))
  unfolding payload_in_established
  payload_in_established-IsValid payload tcb w =
      payload_written-IsValid payload _ (omega (arith, w))

  pub resume-IsValid : (payload : List ℕ) → IsValid (stack_of (resume host id payload s))
  unfolding resume
  resume-IsValid payload = elim (Option-cases (get_tcb id s)) [
    | inl absent ↦ rw (resume, absent) (unfold stack_of in v)
    | inr (tcb, found) ↦
        rw (resume, found) (payload_written-IsValid payload tcb (get_tcb-IsValid v id found))
  ]

module _ (id : ℕ) {s : TcpStack} (v : IsValid s) where
  ack_in_established-IsValid :
      (packet : TcpPacketView) (tcb : Tcb)
      → Block.IsValid tcb
      → let acked = ack_in_established id packet s tcb in
        Block.IsValid acked.tcb × IsValid acked.stack
  unfolding ack_in_established
  ack_in_established-IsValid packet tcb w = elim (Bool-cases (View.ack packet)) [
    | inl a ↦ elim (Bool-cases (has_sendable (ack_taken packet tcb))) [
      | inl more ↦ rw (a, more) (ack_taken-IsValid packet w, add_dirty_tcb-IsValid v id)
      | inr none_left ↦ rw (a, none_left) (ack_taken-IsValid packet w, v)
    ]
    | inr a ↦ rw a (w, v)
  ]

module _ (host : Host) (id : ℕ) {s : TcpStack} (v : IsValid s) where
  established_segment-IsValid :
      (packet : TcpPacketView) (tcb : Tcb)
      → Block.IsValid tcb
      → IsValid (stack_of (established_segment host id packet s tcb))
  unfolding established_segment stack_of
  established_segment-IsValid packet tcb w =
      let (acked, after) = ack_in_established-IsValid id v packet tcb w in
      elim (Bool-cases (View.fin packet)) [
        | inl f ↦ rw f (fin_in_established-IsValid host id v packet tcb w)
        | inr f ↦ elim (Bool-cases (ltb 0 (length (View.payload packet)))) [
          | inl p ↦
              rw (f, p) (payload_in_established-IsValid host id after (View.payload packet) _ acked)
          | inr p ↦ rw (f, p) (put_tcb-IsValid after id _ acked)
        ]
      ]

  pub handle_established_state-IsValid :
      (packet : TcpPacketView) → IsValid (stack_of (handle_established_state host id packet s))
  unfolding handle_established_state stack_of
  handle_established_state-IsValid packet = elim (Option-cases (get_tcb id s)) [
    | inl absent ↦ rw (stack_of, handle_established_state, absent) v
    | inr (tcb, found) ↦
        rw (stack_of, handle_established_state, found)
          (established_segment-IsValid packet tcb (get_tcb-IsValid v id found))
  ]
