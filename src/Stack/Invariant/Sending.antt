-- ===== src/Stack/Invariant/Sending.antt =====
-- Sending and retransmitting keep the blocks valid.
use tiny_cp.Base.{
  ℕ, ◌&&◌, ◌||◌, ◌==◌, Option-cases, inl, inr, arith, Bool-cases, List, [], ◌∷◌, length, ltb, add32,
}
use tiny_cp.Tcb.{Tcb}
use tiny_cp.Tcb.Invariant as Block
use tiny_cp.Stack.State.{Host, TcpStack, get_tcb}
use tiny_cp.Stack.Send.{has_sendable}
use tiny_cp.Stack.Invariant.{
  IsValid, get_tcb-IsValid, put_tcb-IsValid, add_dirty_tcb-IsValid, net-IsValid,
}
use tiny_cp.Base.Map.{Map, AllValues}
use tiny_cp.Stack.State.{Net}
use tiny_cp.Stack.Output.{write_packet, create_writer_tcp_packet}
use tiny_cp.Stack.Invariant.{Valid}
use tiny_cp.Stack.Send.{
  Flushed, usable_window, next_bytes, send_next, process_tcb, process_block, process_ids,
  process_dirty_blocks, is_syn_sent, may_send, retransmit, retransmit_all, check_retransmissions,
  is_due, oldest_bytes,
}

unfoldable pub IsFlushed : Flushed → Type 0
IsFlushed f = Block.IsValid f.tcb × IsValid f.stack

module _ (host : Host) (id : ℕ) {s : TcpStack} (v : IsValid s) where
  send_next-IsFlushed : {tcb : Tcb} → Block.IsValid tcb → IsFlushed (send_next host id tcb s)
  unfolding IsFlushed send_next
  send_next-IsFlushed {tcb} w =
      let bytes = next_bytes tcb in
      let packet = create_writer_tcp_packet tcb bytes tcb.snd.nxt in
      let after =
        net-IsValid v (write_packet host tcb.src_address tcb.dst_address packet s.net).net in
      let sent : Tcb = record tcb {
        snd = record (tcb.snd) { nxt = add32 tcb.snd.nxt (length bytes) };
      } in
      let sent_valid : Block.IsValid sent = omega arith in
      elim (Bool-cases (usable_window tcb == 0 || length bytes == 0)) [
        | inl stop ↦ rw stop (w, v)
        | inr go ↦ elim (Bool-cases (has_sendable sent)) [
          | inl more ↦ rw (go, more) (sent_valid, add_dirty_tcb-IsValid after id)
          | inr last ↦ rw (go, last) (sent_valid, after)
        ]
      ]

  pub process_tcb-IsFlushed :
      {tcb : Tcb} → Block.IsValid tcb → IsFlushed (process_tcb host id tcb s)
  unfolding process_tcb
  process_tcb-IsFlushed {tcb} w =
      let stamped : Tcb = record tcb { last_written = s.clock } in
      let stamped_valid : Block.IsValid stamped = omega arith in
      elim (Bool-cases (is_syn_sent tcb.current_state)) [
        | inl syn ↦ rw syn (unfold IsFlushed in (stamped_valid, net-IsValid v _))
        | inr other ↦ elim (Bool-cases (may_send tcb.current_state)) [
          | inl may ↦ rw (other, may) (send_next-IsFlushed stamped_valid)
          | inr idle ↦ rw (other, idle) (unfold IsFlushed in (stamped_valid, v))
        ]
      ]

  process_block-IsValid : IsValid (process_block host id s)
  unfolding process_block IsFlushed
  process_block-IsValid = elim (Option-cases (get_tcb id s)) [
    | inl absent ↦ rw (process_block, absent) v
    | inr (tcb, found) ↦
        let (w, after) = process_tcb-IsFlushed (get_tcb-IsValid v id found) in
        rw (process_block, found) (put_tcb-IsValid after id _ w)
  ]

process_ids-IsValid :
    (host : Host) (ids : List ℕ) (s : TcpStack) → IsValid s → IsValid (process_ids host ids s)
unfolding process_ids
process_ids-IsValid host [] s v = v
process_ids-IsValid host (id ∷ ids) s v =
    process_ids-IsValid host ids _ (process_block-IsValid host id v)

pub process_dirty_blocks-IsValid :
    (host : Host) (s : TcpStack) → IsValid s → IsValid (process_dirty_blocks host s)
unfolding process_dirty_blocks
process_dirty_blocks-IsValid host s v =
    process_ids-IsValid host s.dirty_socket_ids _
      (record { blocks = v.blocks; next_port_in = v.next_port_in })

retransmit-IsValid :
    (host : Host) (now : ℕ) (tcb : Tcb) (net : Net)
    → Block.IsValid tcb
    → Block.IsValid (retransmit host now tcb net).tcb
unfolding retransmit
retransmit-IsValid host now tcb net w =
    elim (Bool-cases (is_due now tcb && ltb 0 (length (oldest_bytes tcb)))) [
      | inl due ↦ rw due (omega arith)
      | inr idle ↦ rw idle w
    ]

retransmit_all-IsValid :
    (host : Host) (now : ℕ) (m : Map ℕ Tcb) (net : Net)
    → AllValues Block.IsValid m
    → AllValues Block.IsValid (retransmit_all host now m net).sockets
unfolding retransmit_all
retransmit_all-IsValid host now [] net all = tt
retransmit_all-IsValid host now ((id, tcb) ∷ rest) net (w, all) =
    (retransmit-IsValid host now tcb net w, retransmit_all-IsValid host now rest _ all)

pub check_retransmissions-IsValid :
    (host : Host) {s : TcpStack} → IsValid s → IsValid (check_retransmissions host s)
unfolding check_retransmissions Valid
check_retransmissions-IsValid host {s} v = record {
  blocks = retransmit_all-IsValid host s.clock s.sockets.sockets s.net v.blocks;
  next_port_in = v.next_port_in;
}
