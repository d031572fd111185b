-- ===== src/Socket/Admission.antt =====
-- The segment that ends the wait of `accept`.
use tiny_cp.Base.{
  suc, length, take-all, length-append, ℕ, ◌≡◌, ◌≢◌, refl, sym, ◌∙◌, true, false, ◌==◌, Bool-cases,
  inl, inr, some, arith, [], ◌∷◌, ◌++◌,
}
use tiny_cp.Tcb.{Tcb, TcpState, set_state}
use tiny_cp.Tcp.View
use tiny_cp.Tcp.View.{TcpPacketView}
use tiny_cp.Stack.State.{Host, TcpStack, get_tcb, put_tcb}
use tiny_cp.Stack.Output.{Control, reply, ack_only}
use tiny_cp.Base.Map.{nat_eq}
use tiny_cp.Tables.Listeners
use tiny_cp.Stack.Handlers.{
  with_tcb, offer, handshake_done, syn_received_segment, handle_syn_received_state,
}
use tiny_cp.Stack.Lookups.{get-put_tcb, get-put_other, find-put_tcb}
use tiny_cp.Socket.{TcpSocket, state}
use tiny_cp.Address.{Ipv4Address}
use tiny_cp.Socket.Accepting.{accepted, accept_in_order}

-- The acknowledgement of a child's SYN opens the child, and puts it at the end of the queue of the
-- socket that listens on its port.
record Queued (child_id listener_id : ℕ) (listener : Tcb) (s : TcpStack) : Type 0 where
  pub opened : state (record { socket_id = child_id }) s ≡ TcpState.established
  pub queue :
      get_tcb listener_id s
      ≡ some (record listener { accept_queue = listener.accept_queue ++ (child_id ∷ []) })

Queued-offer :
    (id listener_id : ℕ) (ready listener : Tcb) (s : TcpStack)
    → id ≢ 0
    → listener_id ≢ 0
    → listener_id ≢ id
    → ready.current_state ≡ TcpState.established
    → Listeners.find ready.src_address.port s.listeners s.sockets ≡ listener_id
    → get_tcb listener_id s ≡ some listener
    → Queued id listener_id listener (offer id ready (put_tcb id ready s))
unfolding offer state
Queued-offer id listener_id ready listener s h l apart opened bound found =
    let stored = put_tcb id ready s in
    let grown = record listener { accept_queue = listener.accept_queue ++ (id ∷ []) } in
    let there = find-put_tcb ready.src_address.port listener_id id ready s l bound in
    let same = get-put_other listener_id id ready s (λ e. apart (sym e)) ∙ found in
    let child = get-put_other id listener_id grown stored apart ∙ get-put_tcb id ready s h in
    rw (offer, there, same, there)
      (record { opened = rw (state, child) opened; queue = get-put_tcb listener_id grown stored l })

Queued-reply :
    (host : Host) (id listener_id : ℕ) (listener t : Tcb) (c : Control) (seq acked : ℕ)
    (s : TcpStack)
    → Queued id listener_id listener s
    → Queued id listener_id listener (reply host t c seq acked s).stack
unfolding state get_tcb reply
Queued-reply host id listener_id listener t c seq acked s q = record {
  opened = q.opened;
  queue = q.queue;
}

Queued-handle_syn_received_state :
    (host : Host) (src : Ipv4Address) (packet : TcpPacketView) (s : TcpStack) (id listener_id : ℕ)
    (tcb listener : Tcb)
    → id ≢ 0
    → listener_id ≢ 0
    → listener_id ≢ id
    → get_tcb id s ≡ some tcb
    → get_tcb listener_id s ≡ some listener
    → Listeners.find tcb.src_address.port s.listeners s.sockets ≡ listener_id
    → View.rst packet ≡ false
    → View.ack packet ≡ true
    → View.ack_num_ntoh packet ≡ tcb.snd.nxt
    → Queued id listener_id listener (handle_syn_received_state host id src packet s).stack
unfolding handle_syn_received_state syn_received_segment handshake_done set_state
Queued-handle_syn_received_state host src packet s id listener_id tcb listener h l apart found there
      bound rst ack num =
    let ready = handshake_done packet tcb in
    let queued = Queued-offer id listener_id ready listener s h l apart refl bound there in
    let same : (View.ack_num_ntoh packet == tcb.snd.nxt) ≡ true = ground (arith, num) in
    elim (Bool-cases (View.syn packet)) [
      | inl syn ↦
          rw (handle_syn_received_state, with_tcb, found, rst, ack, same, syn)
            (Queued-reply host id listener_id listener ready ack_only ready.snd.nxt ready.rcv.nxt _
              queued)
      | inr pure ↦ rw (handle_syn_received_state, with_tcb, found, rst, ack, same, pure) queued
    ]

-- The acknowledgement of a child's SYN ends the wait of `accept`: it opens the child, and the calls
-- of `accept` on the listener of its port then give the children that were waiting and, behind
-- them, this one.
pub accept_returns-handle_syn_received_state :
    (host : Host) (src : Ipv4Address) (packet : TcpPacketView) (s : TcpStack) (id : ℕ)
    (k : TcpSocket) (tcb listener : Tcb)
    → id ≢ 0
    → k.socket_id ≢ 0
    → k.socket_id ≢ id
    → get_tcb id s ≡ some tcb
    → get_tcb k.socket_id s ≡ some listener
    → listener.current_state ≡ TcpState.listen
    → Listeners.find tcb.src_address.port s.listeners s.sockets ≡ k.socket_id
    → View.rst packet ≡ false
    → View.ack packet ≡ true
    → View.ack_num_ntoh packet ≡ tcb.snd.nxt
    → let after = (handle_syn_received_state host id src packet s).stack in
      (state (record { socket_id = id }) after ≡ TcpState.established)
      × (accepted (suc (length listener.accept_queue)) k after ≡ listener.accept_queue ++ (id ∷ []))
accept_returns-handle_syn_received_state host src packet s id k tcb listener h l apart found there
      listens bound rst ack num =
    let after = (handle_syn_received_state host id src packet s).stack in
    let q =
      Queued-handle_syn_received_state host src packet s id k.socket_id tcb listener h l apart found
        there bound rst ack num in
    let grown = record listener { accept_queue = listener.accept_queue ++ (id ∷ []) } in
    (
      q.opened,
      accept_in_order (suc (length listener.accept_queue)) k after grown l q.queue listens
          ∙ take-all (suc (length listener.accept_queue)) (listener.accept_queue ++ (id ∷ []))
              (omega (arith, length-append listener.accept_queue (id ∷ []))),
    )
