-- ===== src/Stack/Handlers/Opening.antt =====
-- The handlers up to `ESTABLISHED`: handle_closed_reset_response_, handle_passive_open_syn_,
-- handle_syn_sent_state_ and handle_syn_received_state_.
use tiny_cp.Base.{
  ℕ, ◌+◌, true, false, ◌&&◌, ◌||◌, not, none, some, [], ◌∷◌, ◌++◌, ◌==◌, length, if◌then◌else◌, u32,
  add32,
}
use tiny_cp.Address.{Ipv4Address}
use tiny_cp.Tcb.{Tcb, TcpState, set_state}
use tiny_cp.Tcp.View
use tiny_cp.Tcp.View.{TcpPacketView}
use tiny_cp.Tables.Sockets
use tiny_cp.Tables.Listeners
use tiny_cp.Tables.Connections
use tiny_cp.Stack.State.{Host, TcpStack, Sized, get_tcb, put_tcb, generate_random_uint32}
use tiny_cp.Stack.Output.{reply, send_raw_rst, syn_ack, ack_only, rst_only}
use tiny_cp.Stack.Handlers.Ending.{with_tcb}

unfoldable pub handle_closed_reset_response :
    Host → Ipv4Address → Ipv4Address → TcpPacketView → TcpStack → Sized
handle_closed_reset_response host src dst packet s =
    let ack_val = u32 (
      View.seq_num_ntoh packet
      + length (View.payload packet)
      + (if View.syn packet then 1 else 0)) in
    let refused = send_raw_rst host dst src (View.ack_num_ntoh packet) 0 false s.net in
    let unknown = send_raw_rst host dst src 0 ack_val true s.net in
    if View.rst packet
    then record { size = 0; stack = s }
    else if View.ack packet
    then record { size = refused.size; stack = record s { net = refused.net } }
    else record { size = unknown.size; stack = record s { net = unknown.net } }

-- The child of a listener, as the SYN leaves it.
unfoldable pub child_tcb : TcpPacketView → ℕ → Tcb → Tcb
child_tcb packet iss tcb = record tcb {
  rcv = record (tcb.rcv) {
    irs = View.seq_num_ntoh packet;
    nxt = add32 (View.seq_num_ntoh packet) 1;
  };
  snd = record (tcb.snd) { wnd = View.window_ntoh packet; iss = iss; una = iss; nxt = add32 iss 1 };
}

-- `handle_passive_open_syn_` behind the creation of the child.
unfoldable pub open_child :
    Host → Ipv4Address → Ipv4Address → TcpPacketView → ℕ → Tcb → TcpStack → Sized
open_child host src dst packet child_id tcb s =
    let drawn = generate_random_uint32 host s in
    let child = child_tcb packet drawn.number tcb in
    let stored = put_tcb child_id child drawn.stack in
    let routed = record stored {
      connections = Connections.insert_id src dst child_id stored.connections;
    } in
    reply host child syn_ack child.snd.iss child.rcv.nxt routed

unfoldable pub handle_passive_open_syn :
    Host → Ipv4Address → Ipv4Address → TcpPacketView → TcpStack → Sized
handle_passive_open_syn host src dst packet s =
    let listener_id = Listeners.find dst.port s.listeners s.sockets in
    let made = Sockets.create_socket TcpState.syn_received dst src s.sockets in
    let created = record s { sockets = made.table } in
    let opened =
      with_tcb made.id created (λ tcb. open_child host src dst packet made.id tcb created) in
    if not (listener_id == 0) && View.syn packet && not (View.ack packet)
    then opened
    else record { size = 0; stack = s }

-- The peer's sequence number is taken in with its SYN.
unfoldable pub syn_seen : TcpPacketView → Tcb → Tcb
syn_seen packet tcb = record tcb {
  rcv = record (tcb.rcv) {
    irs = View.seq_num_ntoh packet;
    nxt = add32 (View.seq_num_ntoh packet) 1;
  };
  snd = record (tcb.snd) { wnd = View.window_ntoh packet };
}

unfoldable pub acked_syn_seen : TcpPacketView → Tcb → Tcb
acked_syn_seen packet tcb =
    let seen = syn_seen packet tcb in
    record seen { snd = record (seen.snd) { una = View.ack_num_ntoh packet } }

unfoldable pub syn_sent_segment : Host → ℕ → TcpPacketView → TcpStack → Tcb → Sized
syn_sent_segment host id packet s tcb =
    let acks_other = not (View.ack_num_ntoh packet == tcb.snd.nxt) in
    let reset = put_tcb id (set_state TcpState.closed tcb) s in
    let both = set_state TcpState.established (acked_syn_seen packet tcb) in
    let crossed = set_state TcpState.syn_received (syn_seen packet tcb) in
    if View.rst packet
    then record { size = 0; stack = if View.ack packet && not acks_other then reset else s }
    else if View.ack packet && acks_other
    then reply host tcb rst_only (View.ack_num_ntoh packet) 0 s
    else if View.syn packet && View.ack packet
    then reply host both ack_only both.snd.nxt both.rcv.nxt (put_tcb id both s)
    else if View.syn packet
    then reply host crossed syn_ack crossed.snd.iss crossed.rcv.nxt (put_tcb id crossed s)
    else record { size = 0; stack = s }

unfoldable pub handle_syn_sent_state : Host → ℕ → TcpPacketView → TcpStack → Sized
handle_syn_sent_state host id packet s = with_tcb id s (syn_sent_segment host id packet s)

-- The established child goes to the accept queue of the socket that listens on its port, if any.
unfoldable pub offer : ℕ → Tcb → TcpStack → TcpStack
offer id tcb s =
    let listener_id = Listeners.find tcb.src_address.port s.listeners s.sockets in
    elim (get_tcb listener_id s) [
      | none ↦ s
      | some listener ↦
          put_tcb listener_id
            (record listener { accept_queue = listener.accept_queue ++ (id ∷ []) }) s
    ]

-- `RST` in `SYN_RECEIVED`: the state is set, then the socket is taken from both tables.
unfoldable pub abort_handshake : ℕ → Ipv4Address → Tcb → TcpStack → TcpStack
abort_handshake id src tcb s =
    let closed = put_tcb id (set_state TcpState.closed tcb) s in
    record closed {
      connections = Connections.erase src tcb.src_address closed.connections;
      sockets = (Sockets.destroy_socket id closed.sockets).table;
    }

unfoldable pub handshake_done : TcpPacketView → Tcb → Tcb
handshake_done packet tcb = set_state TcpState.established (record tcb {
  snd = record (tcb.snd) { una = View.ack_num_ntoh packet; wnd = View.window_ntoh packet };
})

unfoldable pub syn_received_segment :
    Host → ℕ → Ipv4Address → TcpPacketView → TcpStack → Tcb → Sized
syn_received_segment host id src packet s tcb =
    let ready = handshake_done packet tcb in
    let offered = offer id ready (put_tcb id ready s) in
    if View.rst packet
    then record { size = 0; stack = abort_handshake id src tcb s }
    else if not (View.ack packet) || not (View.ack_num_ntoh packet == tcb.snd.nxt)
    then record { size = 0; stack = s }
    else if View.syn packet && View.ack packet
    then reply host ready ack_only ready.snd.nxt ready.rcv.nxt offered
    else record { size = 0; stack = offered }

unfoldable pub handle_syn_received_state : Host → ℕ → Ipv4Address → TcpPacketView → TcpStack → Sized
handle_syn_received_state host id src packet s =
    with_tcb id s (syn_received_segment host id src packet s)
