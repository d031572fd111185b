-- ===== src/Stack/Handlers/Finishing.antt =====
-- The handlers behind a FIN of this side: handle_fin_wait_1_state_, handle_fin_wait_2_state_,
-- handle_closing_state_ and handle_last_ack_state_.
use tiny_cp.Base.{ℕ, ◌&&◌, ◌==◌, if◌then◌else◌, add32}
use tiny_cp.Tcb.{Tcb, TcpState, set_state}
use tiny_cp.Tcp.View
use tiny_cp.Tcp.View.{TcpPacketView}
use tiny_cp.Stack.State.{Host, TcpStack, Sized, put_tcb, destroy_connection}
use tiny_cp.Stack.Output.{reply, ack_only}
use tiny_cp.Stack.Handlers.Ending.{with_tcb}

-- The FIN of the peer is counted and acknowledged, and the block goes to another state.
unfoldable pub fin_counted : TcpPacketView → Tcb → Tcb
fin_counted packet tcb = record tcb {
  rcv = record (tcb.rcv) { nxt = add32 (View.seq_num_ntoh packet) 1 };
}

unfoldable pub finish_with : Host → ℕ → TcpState → TcpStack → Tcb → TcpStack
finish_with host id state s tcb =
    let sent = reply host tcb ack_only tcb.snd.nxt tcb.rcv.nxt s in
    put_tcb id (set_state state tcb) sent.stack

-- The last step of a connection, with the two addresses in the order of the code.
unfoldable pub destroy_own : Tcb → TcpStack → TcpStack
destroy_own tcb s = destroy_connection tcb.src_address tcb.dst_address s

unfoldable pub fin_wait_1_segment : Host → ℕ → TcpPacketView → TcpStack → Tcb → Sized
fin_wait_1_segment host id packet s tcb =
    let counted = fin_counted packet tcb in
    if View.ack packet && View.ack_num_ntoh packet == tcb.snd.nxt
    then record {
      size = 1;
      stack =
          if View.fin packet
          then destroy_own counted (finish_with host id TcpState.closed s counted)
          else put_tcb id (set_state TcpState.fin_wait_2 tcb) s;
    }
    else if View.fin packet
    then record { size = 1; stack = finish_with host id TcpState.closing s counted }
    else record { size = 0; stack = s }

unfoldable pub handle_fin_wait_1_state : Host → ℕ → TcpPacketView → TcpStack → Sized
handle_fin_wait_1_state host id packet s = with_tcb id s (fin_wait_1_segment host id packet s)

unfoldable pub fin_wait_2_counted : TcpPacketView → Tcb → Tcb
fin_wait_2_counted packet tcb =
    let counted = fin_counted packet tcb in
    if View.ack packet
    then record counted { snd = record (counted.snd) { nxt = View.ack_num_ntoh packet } }
    else counted

unfoldable pub fin_wait_2_segment : Host → ℕ → TcpPacketView → TcpStack → Tcb → Sized
fin_wait_2_segment host id packet s tcb =
    let counted = fin_wait_2_counted packet tcb in
    if View.fin packet
    then record {
      size = 1;
      stack = destroy_own counted (finish_with host id TcpState.closed s counted);
    }
    else record { size = 0; stack = s }

unfoldable pub handle_fin_wait_2_state : Host → ℕ → TcpPacketView → TcpStack → Sized
handle_fin_wait_2_state host id packet s = with_tcb id s (fin_wait_2_segment host id packet s)

-- `CLOSING` and `LAST_ACK` wait for the same acknowledgement.
unfoldable pub last_ack_segment : ℕ → TcpPacketView → TcpStack → Tcb → Sized
last_ack_segment id packet s tcb =
    if View.ack packet && View.ack_num_ntoh packet == tcb.snd.nxt
    then record { size = 1; stack = destroy_own tcb (put_tcb id (set_state TcpState.closed tcb) s) }
    else record { size = 0; stack = s }

unfoldable pub handle_closing_state : ℕ → TcpPacketView → TcpStack → Sized
handle_closing_state id packet s = with_tcb id s (last_ack_segment id packet s)

unfoldable pub handle_last_ack_state : ℕ → TcpPacketView → TcpStack → Sized
handle_last_ack_state id packet s = with_tcb id s (last_ack_segment id packet s)
