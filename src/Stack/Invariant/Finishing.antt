-- ===== src/Stack/Invariant/Finishing.antt =====
-- The handlers behind a FIN of this side keep the blocks valid.
use tiny_cp.Base.{ℕ, ◌&&◌, ◌==◌, inl, inr, arith, Bool-cases}
use tiny_cp.Tcb.{Tcb, TcpState}
use tiny_cp.Tcb.Invariant as Block
use tiny_cp.Tcp.View
use tiny_cp.Tcp.View.{TcpPacketView}
use tiny_cp.Stack.State.{Host, TcpStack}
use tiny_cp.Stack.Output.{ack_only}
use tiny_cp.Stack.Invariant.{IsValid, put_tcb-IsValid, destroy_connection-IsValid}
use tiny_cp.Stack.Invariant.Segment.{seq_num_ntoh-lt, ack_num_ntoh-lt, reply-IsValid}
use tiny_cp.Stack.Invariant.Opening.{with_tcb-IsValid}
use tiny_cp.Stack.Handlers.{
  fin_counted, finish_with, destroy_own, fin_wait_1_segment, handle_fin_wait_1_state,
  fin_wait_2_counted, fin_wait_2_segment, handle_fin_wait_2_state, last_ack_segment,
  handle_closing_state, handle_last_ack_state,
}

fin_counted-IsValid :
    (packet : TcpPacketView) {tcb : Tcb}
    → Block.IsValid tcb
    → Block.IsValid (fin_counted packet tcb)
unfolding fin_counted
fin_counted-IsValid packet v = omega (arith, seq_num_ntoh-lt packet)

fin_wait_2_counted-IsValid :
    (packet : TcpPacketView) {tcb : Tcb}
    → Block.IsValid tcb
    → Block.IsValid (fin_wait_2_counted packet tcb)
unfolding fin_wait_2_counted
fin_wait_2_counted-IsValid packet v =
    let counted = fin_counted-IsValid packet v in
    let ack = ack_num_ntoh-lt packet in
    elim (Bool-cases (View.ack packet)) [ inl a ↦ rw a (omega arith) | inr a ↦ rw a counted ]

destroy_own-IsValid : (tcb : Tcb) {s : TcpStack} → IsValid s → IsValid (destroy_own tcb s)
unfolding destroy_own
destroy_own-IsValid tcb v = destroy_connection-IsValid v tcb.src_address tcb.dst_address

module _ (id : ℕ) (packet : TcpPacketView) {s : TcpStack} (v : IsValid s) where
  last_ack_segment-IsValid :
      (tcb : Tcb) → Block.IsValid tcb → IsValid (last_ack_segment id packet s tcb).stack
  unfolding last_ack_segment
  last_ack_segment-IsValid tcb w =
      elim (Bool-cases (View.ack packet && View.ack_num_ntoh packet == tcb.snd.nxt)) [
        | inl a ↦ rw a (
            destroy_own-IsValid tcb
              (put_tcb-IsValid v id _ (Block.set_state-IsValid TcpState.closed w)))
        | inr a ↦ rw a v
      ]

  pub handle_closing_state-IsValid : IsValid (handle_closing_state id packet s).stack
  unfolding handle_closing_state
  handle_closing_state-IsValid = with_tcb-IsValid id s _ v last_ack_segment-IsValid

  pub handle_last_ack_state-IsValid : IsValid (handle_last_ack_state id packet s).stack
  unfolding handle_last_ack_state
  handle_last_ack_state-IsValid = with_tcb-IsValid id s _ v last_ack_segment-IsValid

module _ (host : Host) (id : ℕ) (packet : TcpPacketView) {s : TcpStack} (v : IsValid s) where
  finish_with-IsValid :
      (state : TcpState) (tcb : Tcb) → Block.IsValid tcb → IsValid (finish_with host id state s tcb)
  unfolding finish_with
  finish_with-IsValid state tcb w =
      put_tcb-IsValid (reply-IsValid host tcb ack_only _ _ v) id _ (Block.set_state-IsValid state w)

  fin_wait_1_segment-IsValid :
      (tcb : Tcb) → Block.IsValid tcb → IsValid (fin_wait_1_segment host id packet s tcb).stack
  unfolding fin_wait_1_segment
  fin_wait_1_segment-IsValid tcb w =
      let counted = fin_counted-IsValid packet w in
      elim (Bool-cases (View.ack packet && View.ack_num_ntoh packet == tcb.snd.nxt)) [
        | inl a ↦ elim (Bool-cases (View.fin packet)) [
          | inl f ↦
              rw (a, f) (destroy_own-IsValid _ (finish_with-IsValid TcpState.closed _ counted))
          | inr f ↦
              rw (a, f) (put_tcb-IsValid v id _ (Block.set_state-IsValid TcpState.fin_wait_2 w))
        ]
        | inr a ↦ elim (Bool-cases (View.fin packet)) [
          | inl f ↦ rw (a, f) (finish_with-IsValid TcpState.closing _ counted)
          | inr f ↦ rw (a, f) v
        ]
      ]

  fin_wait_2_segment-IsValid :
      (tcb : Tcb) → Block.IsValid tcb → IsValid (fin_wait_2_segment host id packet s tcb).stack
  unfolding fin_wait_2_segment
  fin_wait_2_segment-IsValid tcb w = elim (Bool-cases (View.fin packet)) [
    | inl f ↦ rw f (
        destroy_own-IsValid _
          (finish_with-IsValid TcpState.closed _ (fin_wait_2_counted-IsValid packet w)))
    | inr f ↦ rw f v
  ]

  pub handle_fin_wait_1_state-IsValid : IsValid (handle_fin_wait_1_state host id packet s).stack
  unfolding handle_fin_wait_1_state
  handle_fin_wait_1_state-IsValid = with_tcb-IsValid id s _ v fin_wait_1_segment-IsValid

  pub handle_fin_wait_2_state-IsValid : IsValid (handle_fin_wait_2_state host id packet s).stack
  unfolding handle_fin_wait_2_state
  handle_fin_wait_2_state-IsValid = with_tcb-IsValid id s _ v fin_wait_2_segment-IsValid
