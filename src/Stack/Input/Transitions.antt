-- ===== src/Stack/Input/Transitions.antt =====
-- The states through which the segments of a peer take the block that they are for, in every state.
use tiny_cp.Base.{
  ℕ, ◌≡◌, ◌≢◌, ◌∙◌, refl, sym, ap, subst, false, not, ◌&&◌, ◌||◌, ◌==◌, Option-cases, Bool-cases,
  inl, inr, some, arith, List, [], ◌∷◌, ◌++◌,
}
use tiny_cp.Address.{Ipv4Address}
use tiny_cp.Tcb.{Tcb, TcpState, set_state}
use tiny_cp.Ipv4.View as IpView
use tiny_cp.Tcp.View
use tiny_cp.Tcp.View.{TcpPacketView}
use tiny_cp.Tables.Listeners
use tiny_cp.Tables.Laws.{find_socket-destroy_socket}
use tiny_cp.Stack.State.{Host, TcpStack, get_tcb, put_tcb, find_connections_tcb}
use tiny_cp.Stack.Output.{ack_only}
use tiny_cp.Stack.Lookups.{get-put_tcb, get-put_other}
use tiny_cp.Stack.Handlers.{
  stack_of, with_tcb, offer, handshake_done, abort_handshake, syn_received_segment,
  handle_closed_reset_response, handle_syn_sent_state, handle_syn_received_state,
  handle_established_state, handle_fin_wait_1_state, last_ack_segment, handle_fin_wait_2_state,
  handle_closing_state, handle_last_ack_state,
}
use tiny_cp.Stack.Handlers.PassiveOpen.{get-handle_passive_open_syn}
use tiny_cp.Stack.Handlers.Transitions.{
  Edge, syn_acked, Moved, Steps, Moved-stay, Moved-reply, syn_sent_segment-Moved,
  fin_wait_1_segment-Steps, fin_wait_2_segment-Steps, last_ack_segment-Steps,
}
use tiny_cp.Stack.Handlers.Transitions.Established.{established_segment-Moved}
use tiny_cp.Stack.Input.{dispatch, route, process_incoming_packet}

-- The endpoints that a datagram names.
abbrev pub from_endpoint : List ℕ → Ipv4Address
from_endpoint buffer = record {
  address = IpView.source_address_ntoh buffer;
  port = View.source_port_ntoh (IpView.payload buffer);
}

abbrev pub to_endpoint : List ℕ → Ipv4Address
to_endpoint buffer = record {
  address = IpView.destination_address_ntoh buffer;
  port = View.dest_port_ntoh (IpView.payload buffer);
}

-- The offer of a child to its listener leaves the child's state alone, even where it listens itself.
Moved-offer :
    (id : ℕ) (from : TcpState) (ready : Tcb) (s : TcpStack)
    → id ≢ 0
    → Edge from ready.current_state
    → Moved id from (offer id ready (put_tcb id ready s))
unfolding offer Moved
Moved-offer id from ready s h edge =
    let stored = put_tcb id ready s in
    let listener_id = Listeners.find ready.src_address.port stored.listeners stored.sockets in
    let here : get_tcb id stored ≡ some ready = get-put_tcb id ready s h in
    elim (Option-cases (get_tcb listener_id stored)) [
      | inl absent ↦ rw (offer, absent) (ready, here, edge)
      | inr (listener, found) ↦
          let grown : Tcb = record listener { accept_queue = listener.accept_queue ++ (id ∷ []) } in
          elim (Bool-cases (listener_id == id)) [
            | inl own ↦
                let eq : listener_id ≡ id = ground (arith, own) in
                let both : some listener ≡ some ready =
                  sym found ∙ ap (λ i. get_tcb i stored) eq ∙ here in
                let same : listener ≡ ready = ground (arith, both) in
                let at =
                  subst (λ i. get_tcb id (put_tcb i grown stored) ≡ some grown) (sym eq)
                    (get-put_tcb id grown stored h) in
                rw (offer, found)
                  (grown, at, subst (λ (t : Tcb). Edge from t.current_state) (sym same) edge)
            | inr other ↦
                rw (offer, found)
                  (ready, get-put_other id listener_id grown stored (ground arith) ∙ here, edge)
          ]
    ]

Steps-abort_handshake :
    (id : ℕ) (src : Ipv4Address) (from : TcpState) (tcb : Tcb) (s : TcpStack)
    → Steps id from (abort_handshake id src tcb s)
unfolding abort_handshake get_tcb
Steps-abort_handshake id src from tcb s =
    let closed = put_tcb id (set_state TcpState.closed tcb) s in
    inl (ground (arith, find_socket-destroy_socket closed.sockets id id))

syn_received_segment-Steps :
    (host : Host) (id : ℕ) (src : Ipv4Address) (packet : TcpPacketView) (s : TcpStack) (tcb : Tcb)
    → id ≢ 0
    → get_tcb id s ≡ some tcb
    → tcb.current_state ≡ TcpState.syn_received
    → Steps id TcpState.syn_received (syn_received_segment host id src packet s tcb).stack
unfolding syn_received_segment handshake_done set_state
syn_received_segment-Steps host id src packet s tcb h found state =
    let from = TcpState.syn_received in
    let kept = Moved-stay id from s tcb found state in
    let ready = handshake_done packet tcb in
    let offered = Moved-offer id from ready s h syn_acked in
    elim (Bool-cases (View.rst packet)) [
      | inl r ↦ rw r (Steps-abort_handshake id src from tcb s)
      | inr r ↦
          elim (Bool-cases
            (not (View.ack packet) || not (View.ack_num_ntoh packet == tcb.snd.nxt))) [
              | inl w ↦ rw (r, w) (inr kept)
              | inr w ↦ elim (Bool-cases (View.syn packet && View.ack packet)) [
                | inl b ↦
                    rw (r, w, b)
                      (inr (
                        Moved-reply id from _ host ready ack_only ready.snd.nxt ready.rcv.nxt
                          offered))
                | inr b ↦ rw (r, w, b) (inr offered)
              ]
            ]
    ]

-- Segments that reset or refuse leave every block alone.
get-handle_closed_reset_response :
    (host : Host) (id : ℕ) (src dst : Ipv4Address) (packet : TcpPacketView) (s : TcpStack)
    → get_tcb id (handle_closed_reset_response host src dst packet s).stack ≡ get_tcb id s
unfolding handle_closed_reset_response get_tcb
get-handle_closed_reset_response host id src dst packet s = elim (Bool-cases (View.rst packet)) [
  | inl r ↦ rw r refl
  | inr r ↦ elim (Bool-cases (View.ack packet)) [ inl a ↦ rw (r, a) refl | inr a ↦ rw (r, a) refl ]
]

Moved-kept :
    (id : ℕ) (from : TcpState) (s after : TcpStack) (tcb : Tcb)
    → get_tcb id s ≡ some tcb
    → tcb.current_state ≡ from
    → get_tcb id after ≡ get_tcb id s
    → Moved id from after
Moved-kept id from s after tcb found state same = Moved-stay id from after tcb (same ∙ found) state

module _ (host : Host) (id : ℕ) (src dst : Ipv4Address) (packet : TcpPacketView) (s : TcpStack)
    (tcb : Tcb) (nonzero : id ≢ 0) (live : s.sockets.next_id ≢ 0) (apart : id ≢ s.sockets.next_id)
    (found : get_tcb id s ≡ some tcb) where
  Steps-dispatch :
      (q : TcpState)
      → tcb.current_state ≡ q
      → Steps id q (stack_of (dispatch host id src dst packet q s))
  unfolding dispatch stack_of handle_syn_sent_state handle_syn_received_state
      handle_established_state handle_fin_wait_1_state handle_fin_wait_2_state handle_closing_state
      handle_last_ack_state
  Steps-dispatch TcpState.closed e = inr (
      Moved-kept id TcpState.closed s _ tcb found e
        (get-handle_closed_reset_response host id src dst packet s))
  Steps-dispatch TcpState.listen e = inr (
      Moved-kept id TcpState.listen s _ tcb found e
        (get-handle_passive_open_syn host dst src packet s id live apart))
  Steps-dispatch TcpState.syn_sent e =
      rw (handle_syn_sent_state, with_tcb, found)
        (inr (syn_sent_segment-Moved host id packet s tcb nonzero found e))
  Steps-dispatch TcpState.syn_received e =
      rw (handle_syn_received_state, with_tcb, found)
        (syn_received_segment-Steps host id src packet s tcb nonzero found e)
  Steps-dispatch TcpState.established e =
      rw (handle_established_state, stack_of, found)
        (inr (established_segment-Moved host id packet s tcb nonzero e))
  Steps-dispatch TcpState.fin_wait_1 e =
      rw (handle_fin_wait_1_state, with_tcb, found)
        (fin_wait_1_segment-Steps host id packet s tcb nonzero found e)
  Steps-dispatch TcpState.fin_wait_2 e =
      rw (handle_fin_wait_2_state, with_tcb, found)
        (fin_wait_2_segment-Steps host id packet s tcb nonzero found e)
  Steps-dispatch TcpState.close_wait e = inr (Moved-stay id TcpState.close_wait s tcb found e)
  Steps-dispatch TcpState.closing e =
      rw (handle_closing_state, with_tcb, found)
        (subst (λ q. Steps id q (last_ack_segment id packet s tcb).stack) e
          (last_ack_segment-Steps id packet s tcb nonzero found (inl e)))
  Steps-dispatch TcpState.last_ack e =
      rw (handle_last_ack_state, with_tcb, found)
        (subst (λ q. Steps id q (last_ack_segment id packet s tcb).stack) e
          (last_ack_segment-Steps id packet s tcb nonzero found (inr e)))
  Steps-dispatch TcpState.time_wait e = inr (Moved-stay id TcpState.time_wait s tcb found e)

module _ (host : Host) (packet : TcpPacketView) (s : TcpStack) (id : ℕ) (tcb : Tcb) where
  -- A segment for a registered connection goes to the handler of the state of its block.
  pub route_known :
      (src dst : Ipv4Address)
      → id ≢ 0
      → find_connections_tcb src dst s ≡ id
      → get_tcb id s ≡ some tcb
      → route host src dst packet s ≡ dispatch host id src dst packet tcb.current_state s
  unfolding route
  route_known src dst h routed found =
      let nonzero : (id == 0) ≡ false = ground arith in
      rw (route, routed, nonzero, found, routed) refl

-- Whatever bytes arrive at a stack that still has ids, the block that they are for, of an id that is
-- neither 0 nor the next one, takes an arrow of the state diagram that starts in
-- its state, stays in that state, or is removed; also where the thread comes to wait.
pub process_incoming_packet-Steps :
    (host : Host) (buffer : List ℕ) (s : TcpStack) (id : ℕ) (tcb : Tcb)
    → id ≢ 0
    → s.sockets.next_id ≢ 0
    → id ≢ s.sockets.next_id
    → get_tcb id s ≡ some tcb
    → find_connections_tcb (from_endpoint buffer) (to_endpoint buffer) s ≡ id
    → Steps id tcb.current_state (stack_of (process_incoming_packet host buffer s))
unfolding process_incoming_packet stack_of
process_incoming_packet-Steps host buffer s id tcb h live apart found routed =
    let packet = IpView.payload buffer in
    let src = from_endpoint buffer in
    let dst = to_endpoint buffer in
    elim (Bool-cases (not (IpView.valid buffer) || not (View.valid packet))) [
      | inl bad ↦ rw bad (inr (Moved-stay id tcb.current_state s tcb found refl))
      | inr good ↦
          rw (good, route_known host packet s id tcb src dst h routed found)
            (Steps-dispatch host id src dst packet s tcb h live apart found tcb.current_state refl)
    ]
