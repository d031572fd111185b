-- ===== src/Stack/Handlers/Receiving.antt =====
-- handle_established_state_: acknowledgements, payload and the peer's FIN.
use tiny_cp.Base.{ℕ, true, none, some, List, ltb, length, if◌then◌else◌, add32, sub32, is_positive}
use tiny_cp.Buffer
use tiny_cp.Tcb.{Tcb, TcpState, max_ipv4_packet_size, set_state}
use tiny_cp.Tcp.View
use tiny_cp.Tcp.View.{TcpPacketView}
use tiny_cp.Stack.State.{Host, TcpStack, get_tcb, put_tcb, add_dirty_tcb}
use tiny_cp.Stack.Output.{reply, ack_only}
use tiny_cp.Stack.Send.{has_sendable}
use tiny_cp.Stack.Handlers.Ending.{Outcome, returns, waits, done}

-- `FIN` in `ESTABLISHED`. `SND.NXT`, and not `SND.UNA`, is set to the acknowledged number.
unfoldable pub fin_taken : TcpPacketView → Tcb → Tcb
fin_taken packet tcb =
    let received = record tcb {
      rcv = record (tcb.rcv) { nxt = add32 (View.seq_num_ntoh packet) 1 };
    } in
    if View.ack packet
    then record received {
      snd = record (tcb.snd) { nxt = View.ack_num_ntoh packet; wnd = View.window_ntoh packet };
    }
    else received

unfoldable pub fin_in_established : Host → ℕ → TcpPacketView → TcpStack → Tcb → TcpStack
fin_in_established host id packet s tcb =
    let taken = fin_taken packet tcb in
    let sent = reply host taken ack_only taken.snd.nxt taken.rcv.nxt s in
    let waiting = record (set_state TcpState.close_wait taken) {
      recv_buffer = Buffer.force_wake_up taken.recv_buffer;
    } in
    put_tcb id waiting sent.stack

-- The acknowledged bytes leave the send buffer, and `SND.UNA` moves on.
unfoldable pub ack_taken : TcpPacketView → Tcb → Tcb
ack_taken packet tcb =
    let acked_bytes = sub32 (View.ack_num_ntoh packet) tcb.snd.una in
    let windowed = record tcb {
      has_received_ack = true;
      snd = record (tcb.snd) { wnd = View.window_ntoh packet };
    } in
    if is_positive acked_bytes
    then record windowed {
      send_buffer = (Buffer.discard max_ipv4_packet_size tcb.send_buffer acked_bytes).after;
      snd = record (tcb.snd) { una = View.ack_num_ntoh packet; wnd = View.window_ntoh packet };
    }
    else windowed

-- The acknowledgement of a segment, and a mark on the block if it may send again.
unfoldable pub ack_in_established :
    ℕ → TcpPacketView → TcpStack → Tcb → record { tcb : Tcb; stack : TcpStack }
ack_in_established id packet s tcb =
    let acked = ack_taken packet tcb in
    if View.ack packet
    then record { tcb = acked; stack = if has_sendable acked then add_dirty_tcb id s else s }
    else record { tcb = tcb; stack = s }

-- The write of a payload, and then its acknowledgement.
unfoldable pub payload_written : Host → ℕ → List ℕ → TcpStack → Tcb → Outcome
payload_written host id payload s tcb =
    elim (Buffer.write max_ipv4_packet_size tcb.recv_buffer payload) [
      | none ↦ waits id payload (put_tcb id tcb s)
      | some out ↦
          let stored = record tcb { recv_buffer = out.after } in
          done (reply host stored ack_only stored.snd.nxt stored.rcv.nxt (put_tcb id stored s))
    ]

-- The payload: `RCV.NXT` moves by its whole size, and the buffer takes what it has room for.
unfoldable pub payload_in_established : Host → ℕ → List ℕ → TcpStack → Tcb → Outcome
payload_in_established host id payload s tcb =
    payload_written host id payload s
      (record tcb { rcv = record (tcb.rcv) { nxt = add32 tcb.rcv.nxt (length payload) } })

unfoldable pub established_segment : Host → ℕ → TcpPacketView → TcpStack → Tcb → Outcome
established_segment host id packet s tcb =
    let acked = ack_in_established id packet s tcb in
    if View.fin packet
    then returns 1 (fin_in_established host id packet s tcb)
    else if ltb 0 (length (View.payload packet))
    then payload_in_established host id (View.payload packet) acked.stack acked.tcb
    else returns 0 (put_tcb id acked.tcb acked.stack)

unfoldable pub handle_established_state : Host → ℕ → TcpPacketView → TcpStack → Outcome
handle_established_state host id packet s = elim (get_tcb id s) [
  | none ↦ returns 0 s
  | some tcb ↦ established_segment host id packet s tcb
]

-- A thread that waits in the write tries again once the buffer has room or was woken up. Where the
-- block is gone by then the code's pointer dangles; the model returns 0.
unfoldable pub resume : Host → ℕ → List ℕ → TcpStack → Outcome
resume host id payload s = elim (get_tcb id s) [
  | none ↦ returns 0 s
  | some tcb ↦ payload_written host id payload s tcb
]
