-- ===== src/Stack/Handlers/Transitions/Established.antt =====
-- The transition of a block in `ESTABLISHED`, whose handler may wait.
use tiny_cp.Base.{
  ℕ, ◌≡◌, ◌≢◌, ◌∙◌, refl, sym, subst, Option-cases, Bool-cases, inl, inr, List, length, ltb, add32,
  sub32, is_positive,
}
use tiny_cp.Buffer.{write, force_wake_up}
use tiny_cp.Tcb.{Tcb, TcpState, set_state, max_ipv4_packet_size}
use tiny_cp.Tcp.View
use tiny_cp.Tcp.View.{TcpPacketView}
use tiny_cp.Tables.Connections.{connection_key_eq}
use tiny_cp.Stack.State.{Host, TcpStack, put_tcb}
use tiny_cp.Stack.Output.{reply, ack_only}
use tiny_cp.Stack.Handlers.{
  stack_of, ack_in_established, ack_taken, payload_written, payload_in_established,
  established_segment, fin_in_established, fin_taken,
}
use tiny_cp.Stack.Handlers.Transitions.{Edge, stay, fin_first, Moved, Moved-put_tcb, Moved-reply}

state-ack_in_established :
    (id : ℕ) (packet : TcpPacketView) (s : TcpStack) (tcb : Tcb)
    → (ack_in_established id packet s tcb).tcb.current_state ≡ tcb.current_state
unfolding ack_in_established ack_taken
state-ack_in_established id packet s tcb = elim (Bool-cases (View.ack packet)) [
  | inl a ↦ elim (Bool-cases (is_positive (sub32 (View.ack_num_ntoh packet) tcb.snd.una))) [
    | inl p ↦ rw (a, p) refl
    | inr p ↦ rw (a, p) refl
  ]
  | inr a ↦ rw a refl
]

Moved-payload_in_established :
    (host : Host) (id : ℕ) (payload : List ℕ) (s : TcpStack) (tcb : Tcb)
    → id ≢ 0
    → Moved id tcb.current_state (stack_of (payload_in_established host id payload s tcb))
unfolding payload_in_established payload_written stack_of
Moved-payload_in_established host id payload s tcb h =
    let from = tcb.current_state in
    let counted : Tcb = record tcb {
      rcv = record (tcb.rcv) { nxt = add32 tcb.rcv.nxt (length payload) };
    } in
    elim (Option-cases (write max_ipv4_packet_size tcb.recv_buffer payload)) [
      | inl full ↦
          rw (stack_of, payload_in_established, payload_written, full)
            (Moved-put_tcb id from s counted h (stay from))
      | inr (out, room) ↦
          let stored : Tcb = record counted { recv_buffer = out.after } in
          rw (stack_of, payload_in_established, payload_written, room)
            (Moved-reply id from (put_tcb id stored s) host stored ack_only stored.snd.nxt
              stored.rcv.nxt (Moved-put_tcb id from s stored h (stay from)))
    ]

-- A segment in `ESTABLISHED` leaves the block in its state or takes it to `CLOSE_WAIT`.
pub established_segment-Moved :
    (host : Host) (id : ℕ) (packet : TcpPacketView) (s : TcpStack) (tcb : Tcb)
    → id ≢ 0
    → tcb.current_state ≡ TcpState.established
    → Moved id TcpState.established (stack_of (established_segment host id packet s tcb))
unfolding established_segment stack_of fin_in_established set_state
established_segment-Moved host id packet s tcb h state =
    let from = TcpState.established in
    let acked = ack_in_established id packet s tcb in
    let same = state-ack_in_established id packet s tcb ∙ state in
    let taken = fin_taken packet tcb in
    let waiting : Tcb = record (set_state TcpState.close_wait taken) {
      recv_buffer = force_wake_up taken.recv_buffer;
    } in
    elim (Bool-cases (View.fin packet)) [
      | inl f ↦ rw f (
          Moved-put_tcb id from (reply host taken ack_only taken.snd.nxt taken.rcv.nxt s).stack
            waiting h fin_first)
      | inr f ↦ elim (Bool-cases (ltb 0 (length (View.payload packet)))) [
        | inl p ↦
            rw (f, p)
              (subst
                (λ q. Moved id q (
                  stack_of
                    (payload_in_established host id (View.payload packet) acked.stack acked.tcb)))
                same
                (Moved-payload_in_established host id (View.payload packet) acked.stack acked.tcb
                  h))
        | inr p ↦
            rw (f, p)
              (Moved-put_tcb id from acked.stack acked.tcb h
                (subst (λ q. Edge from q) (sym same) (stay from)))
      ]
    ]
