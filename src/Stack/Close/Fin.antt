-- ===== src/Stack/Close/Fin.antt =====
-- What `close_connection` leaves of a block that has a peer to tell.
use tiny_cp.Base.{ℕ, ◌≡◌, ◌≢◌, ◌⊎◌, inl, inr, refl, true, some, [], add32}
use tiny_cp.Tcb.{Tcb, TcpState, close, closing_state, set_state}
use tiny_cp.Tcp.Header.{TcpHeader}
use tiny_cp.Buffer.{force_wake_up}
use tiny_cp.Stack.State.{Host, Net, TcpStack, get_tcb, put_tcb}
use tiny_cp.Stack.Lookups.{get-put_tcb}
use tiny_cp.Stack.Output.{
  reply, fin_ack, control_header, free_window, send_control_packet, write_packet,
}
use tiny_cp.Stack.Segments.{Says, control_header-Says}
use tiny_cp.Stack.Send.{Flushed, process_tcb}
use tiny_cp.Stack.Invariant.{IsValid, get_tcb-IsValid}
use tiny_cp.Stack.Invariant.Sending.{IsFlushed, process_tcb-IsFlushed}
use tiny_cp.Stack.Close.{close_connection, close_in, send_fin}

-- A block whose FIN has been sent, after `process_block_` left the block and the stack in `flushed`:
-- its sequence number is one past the FIN, the threads that wait on its buffers return, and the
-- last packet under way is a segment without payload whose header says FIN and ACK, with the
-- sequence number that the flush left and the next one that the block expects.
pub record Closing (host : Host) (flushed : Flushed) (new : Tcb) (net : Net) (state : TcpState)
    : Type 0 where
  pub current_state : new.current_state ≡ state
  pub nxt : new.snd.nxt ≡ add32 flushed.tcb.snd.nxt 1
  pub woken_recv : new.recv_buffer.is_forcefully_woken_up ≡ true
  pub woken_send : new.send_buffer.is_forcefully_woken_up ≡ true
  pub header : TcpHeader
  pub says : Says header new fin_ack flushed.tcb.snd.nxt flushed.tcb.rcv.nxt
  pub told :
      net
      ≡ (write_packet host flushed.tcb.src_address flushed.tcb.dst_address
          (record { header = header; payload = [] })
          flushed.stack.net).net

pub HasClosing : Host → ℕ → Flushed → TcpState → TcpStack → Type 0
HasClosing host id flushed state s =
    (new : Tcb) × (get_tcb id s ≡ some new) × Closing host flushed new s.net state

get-send_fin :
    (host : Host) (id : ℕ) (state : TcpState) (s : TcpStack) (tcb : Tcb)
    → id ≢ 0
    → IsFlushed (process_tcb host id tcb s)
    → HasClosing host id (process_tcb host id tcb s) state (send_fin host id state s tcb).stack
unfolding HasClosing send_fin close set_state force_wake_up IsFlushed reply send_control_packet
    control_header free_window put_tcb
get-send_fin host id state s tcb h (valid, _) =
    let flushed = process_tcb host id tcb s in
    let closing = set_state state (close flushed.tcb) in
    let sent = reply host closing fin_ack closing.snd.nxt closing.rcv.nxt flushed.stack in
    let counted : Tcb = record closing {
      snd = record (closing.snd) { nxt = add32 closing.snd.nxt 1 };
    } in
    (
      counted,
      get-put_tcb id counted sent.stack h,
      record {
        current_state = refl;
        nxt = refl;
        woken_recv = refl;
        woken_send = refl;
        header = control_header counted fin_ack flushed.tcb.snd.nxt flushed.tcb.rcv.nxt 65535;
        says =
            control_header-Says counted fin_ack _ _ valid.src_in valid.dst_in valid.snd_nxt_in
              valid.rcv_nxt_in;
        told = refl;
      },
    )

close_connection_of :
    (host : Host) (id : ℕ) (s : TcpStack) (tcb : Tcb) (state : TcpState)
    → get_tcb id s ≡ some tcb
    → tcb.current_state ≡ state
    → close_connection host id s ≡ close_in host id state s tcb
unfolding close_connection close_in
close_connection_of host id s tcb state found e = rw (close_connection, found, e) refl

-- In a valid stack, closing a block in `ESTABLISHED` or `CLOSE_WAIT` lets `process_block_` send its
-- next segment, takes the block to `FIN_WAIT_1` or `LAST_ACK`, sends behind it a segment without
-- payload that says FIN and ACK, with the sequence number that follows and the next one that the
-- block expects, counts this FIN as a byte, and wakes both its buffers.
pub close_connection-Closing :
    (host : Host) (id : ℕ) (s : TcpStack) (tcb : Tcb)
    → id ≢ 0
    → IsValid s
    → get_tcb id s ≡ some tcb
    → (tcb.current_state ≡ TcpState.established) ⊎ (tcb.current_state ≡ TcpState.close_wait)
    → HasClosing host id
        (process_tcb host id tcb s)
        (closing_state tcb.current_state)
        (close_connection host id s).stack
unfolding close_in closing_state
close_connection-Closing host id s tcb h v found (inl e) =
    let flushed = process_tcb-IsFlushed host id v (get_tcb-IsValid v id found) in
    simp (close_connection_of host id s tcb TcpState.established found e, e)
      (get-send_fin host id TcpState.fin_wait_1 s tcb h flushed)
close_connection-Closing host id s tcb h v found (inr e) =
    let flushed = process_tcb-IsFlushed host id v (get_tcb-IsValid v id found) in
    simp (close_connection_of host id s tcb TcpState.close_wait found e, e)
      (get-send_fin host id TcpState.last_ack s tcb h flushed)
