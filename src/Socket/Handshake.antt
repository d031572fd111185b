-- ===== src/Socket/Handshake.antt =====
-- The segment that ends the wait of `connect`.
use tiny_cp.Base.{ℕ, ◌≡◌, ◌≢◌, ◌⊎◌, refl, true, ◌==◌, Bool-cases, inl, inr, some, arith}
use tiny_cp.Tcb.{Tcb, TcpState, set_state}
use tiny_cp.Tcp.View
use tiny_cp.Tcp.View.{TcpPacketView}
use tiny_cp.Stack.State.{Host, TcpStack, get_tcb, put_tcb}
use tiny_cp.Stack.Output.{Control, reply, ack_only}
use tiny_cp.Base.Map.{nat_eq}
use tiny_cp.Stack.Handlers.{with_tcb, handle_syn_sent_state, syn_sent_segment, acked_syn_seen}
use tiny_cp.Stack.Lookups.{get-put_tcb}
use tiny_cp.Socket.{TcpSocket, connect_returns, ends_connect}

returns-put_tcb :
    (k : TcpSocket) (t : Tcb) (s : TcpStack)
    → k.socket_id ≢ 0
    → ends_connect t.current_state ≡ true
    → connect_returns k (put_tcb k.socket_id t s) ≡ true
unfolding connect_returns
returns-put_tcb k t s h e = rw (connect_returns, get-put_tcb k.socket_id t s h) e

returns-reply :
    (host : Host) (k : TcpSocket) (t : Tcb) (c : Control) (seq acked : ℕ) (s : TcpStack)
    → connect_returns k s ≡ true
    → connect_returns k (reply host t c seq acked s).stack ≡ true
unfolding connect_returns get_tcb reply
returns-reply host k t c seq acked s h = h

-- The peer's answer to the SYN ends the wait of `connect`: a segment that acknowledges the SYN and
-- has SYN or RST itself leaves the block in ESTABLISHED or in CLOSED.
pub connect_returns-handle_syn_sent_state :
    (host : Host) (k : TcpSocket) (packet : TcpPacketView) (s : TcpStack) (tcb : Tcb)
    → k.socket_id ≢ 0
    → get_tcb k.socket_id s ≡ some tcb
    → View.ack packet ≡ true
    → View.ack_num_ntoh packet ≡ tcb.snd.nxt
    → (View.syn packet ≡ true) ⊎ (View.rst packet ≡ true)
    → connect_returns k (handle_syn_sent_state host k.socket_id packet s).stack ≡ true
unfolding handle_syn_sent_state syn_sent_segment set_state
connect_returns-handle_syn_sent_state host k packet s tcb h found ack num (inr rst) =
    let same : (View.ack_num_ntoh packet == tcb.snd.nxt) ≡ true = ground (arith, num) in
    rw (handle_syn_sent_state, with_tcb, found, rst, ack, same)
      (returns-put_tcb k (set_state TcpState.closed tcb) s h refl)
connect_returns-handle_syn_sent_state host k packet s tcb h found ack num (inl syn) =
    let same : (View.ack_num_ntoh packet == tcb.snd.nxt) ≡ true = ground (arith, num) in
    let both = set_state TcpState.established (acked_syn_seen packet tcb) in
    elim (Bool-cases (View.rst packet)) [
      | inl rst ↦
          rw (handle_syn_sent_state, with_tcb, found, rst, ack, same)
            (returns-put_tcb k (set_state TcpState.closed tcb) s h refl)
      | inr other ↦
          rw (handle_syn_sent_state, with_tcb, found, other, ack, same, syn)
            (returns-reply host k both ack_only both.snd.nxt both.rcv.nxt
              (put_tcb k.socket_id both s) (returns-put_tcb k both s h refl))
    ]
