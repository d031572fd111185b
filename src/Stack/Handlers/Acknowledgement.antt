-- ===== src/Stack/Handlers/Acknowledgement.antt =====
-- An acknowledgement in `ESTABLISHED`, against the bytes in flight.
use tiny_cp.Base.{
  ℕ, ◌-◌, ◌^◌, ◌<◌, ◌≤◌, ◌≡◌, refl, ap, Bool-cases, inl, inr, arith, drop, sub32, is_positive,
}
use tiny_cp.Buffer.{size}
use tiny_cp.Buffer.Invariant.{discard-IsValid}
use tiny_cp.Buffer.Refinement.{contents, contents-discard}
use tiny_cp.Buffer.Bounds.{size-discard}
use tiny_cp.Tcb.{Tcb, max_ipv4_packet_size}
use tiny_cp.Tcp.View
use tiny_cp.Tcp.View.{TcpPacketView}
use tiny_cp.Stack.Send.{in_flight}
use tiny_cp.Stack.Send.Window.{IsSending}
use tiny_cp.Stack.Handlers.{ack_taken}

-- How many bytes a segment acknowledges.
abbrev pub acked_by : TcpPacketView → Tcb → ℕ
acked_by packet tcb = sub32 (View.ack_num_ntoh packet) tcb.snd.una

-- An acknowledgement of bytes that are in flight takes just these out of flight and off the front
-- of the send buffer, takes over the window of the peer, and keeps what sending relies on.
pub ack_taken-IsSending :
    (packet : TcpPacketView) (tcb : Tcb)
    → View.ack_num_ntoh packet < 2 ^ 32
    → IsSending tcb
    → acked_by packet tcb ≤ in_flight tcb
    → let new = ack_taken packet tcb in
      IsSending new
      × (in_flight new ≡ in_flight tcb - acked_by packet tcb)
      × (contents max_ipv4_packet_size new.send_buffer
          ≡ drop (acked_by packet tcb) (contents max_ipv4_packet_size tcb.send_buffer))
      × (new.snd.wnd ≡ View.window_ntoh packet)
unfolding ack_taken IsSending in_flight size
ack_taken-IsSending packet tcb ack_in (v, nxt_in, una_in, held) acceptable =
    let n = acked_by packet tcb in
    let len_in = v.len_in in
    let left = size-discard max_ipv4_packet_size tcb.send_buffer n in
    let front = contents-discard v n in
    elim (Bool-cases (is_positive n)) [
      | inl some_acked ↦
          rw some_acked
            ((discard-IsValid n v, nxt_in, ack_in, omega arith), omega arith, front, refl)
      | inr none_acked ↦ rw none_acked (
        (v, nxt_in, una_in, held),
        ground arith,
        ap (λ (k : ℕ). drop k (contents max_ipv4_packet_size tcb.send_buffer)) {x = 0} {y = n}
            (ground arith),
        refl,
      )
    ]
