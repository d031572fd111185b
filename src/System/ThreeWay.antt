-- ===== src/System/ThreeWay.antt =====
-- The whole handshake: from `connect` on one stack to `accept` on another.
use tiny_cp.Base.{
  ℕ, suc, ◌≡◌, ◌≢◌, refl, ap, ap₂, sym, ◌∙◌, true, some, List, [], ◌∷◌, ◌++◌, length, u32, add32,
}
use tiny_cp.Address.{Ipv4Address}
use tiny_cp.Tcb.{Tcb, TcpState}
use tiny_cp.Tcb.Invariant as Block
use tiny_cp.Tables.Listeners
use tiny_cp.Stack.State.{Host, Net, TcpStack, get_tcb, put_tcb, find_connections_tcb}
use tiny_cp.Stack.Output.{
  syn_only, syn_ack, ack_only, send_control_packet, free_window, control_header,
}
use tiny_cp.Stack.Handlers.{stack_of}
use tiny_cp.Stack.Send.{process_block, process_tcb, is_syn_sent}
use tiny_cp.Stack.Input.{process_incoming_packet, dispatch}
use tiny_cp.Stack.Invariant.{IsValid, get_tcb-IsValid}
use tiny_cp.Stack.Invariant.Arriving.{process_incoming_packet-IsValid}
use tiny_cp.Socket.{TcpSocket, state, connect_returns}
use tiny_cp.Socket.Accepting.{accepted}
use tiny_cp.Socket.Admission.{accept_returns-handle_syn_received_state}
use tiny_cp.Stack.Input.Transitions.{route_known}
use tiny_cp.Stack.Handlers.PassiveOpen.{IsChild}
use tiny_cp.System.Handshake.{control_datagram, heard_control, IsChild-syn, IsOpen-syn_ack}

-- The acknowledgement of the child's SYN, at the stack of the server.
module _ (host server : Host) (new : Tcb) (s : TcpStack) (id : ℕ) (k : TcpSocket) (listener : Tcb)
    (own remote : Ipv4Address) (seq number : ℕ) where
  accept_returns-ack :
      (before : Net) (c : IsChild server before own remote seq number id k.socket_id listener s)
      → Block.IsValid new
      → id ≢ 0
      → k.socket_id ≢ 0
      → k.socket_id ≢ id
      → listener.current_state ≡ TcpState.listen
      → (new.src_address ≡ remote) × (new.dst_address ≡ own)
      → new.rcv.nxt ≡ c.child.snd.nxt
      → let after = stack_of (
          process_incoming_packet server
            (control_datagram host new ack_only new.snd.nxt new.rcv.nxt)
            s) in
        (state (record { socket_id = id }) after ≡ TcpState.established)
        × (accepted (suc (length listener.accept_queue)) k after
            ≡ listener.accept_queue ++ (id ∷ []))
  unfolding dispatch stack_of
  accept_returns-ack before c v h l apart listens addressed num =
      let (view, arrived, hears) =
        heard_control host server new ack_only new.snd.nxt new.rcv.nxt s v v.snd_nxt_in
          v.rcv_nxt_in in
      let routed = ap₂ (λ a b. find_connections_tcb a b s) addressed.0 addressed.1 ∙ c.routed in
      let path = ap stack_of (
        arrived
        ∙ route_known server view s id c.child new.src_address new.dst_address h routed c.found
        ∙ ap (λ q. dispatch server id new.src_address new.dst_address view q s) c.state) in
      let bound =
        ap (λ (a : Ipv4Address). Listeners.find a.port s.listeners s.sockets) c.addressed.0
        ∙ c.listens in
      rw path (
        accept_returns-handle_syn_received_state server new.src_address view s id k c.child listener
          h l apart c.found c.listener_found listens bound hears.rst hears.ack
          (hears.ack_num ∙ num))

-- The stack once a datagram has been read.
abbrev pub receives : Host → List ℕ → TcpStack → TcpStack
receives host datagram s = stack_of (process_incoming_packet host datagram s)

-- A client that waits in `connect` on a stack, and a server whose socket `l` listens where it connects to.
pub record IsReady (c s : TcpStack) (k l : TcpSocket) (tcb listener : Tcb) : Type 0 where
  pub client_valid : IsValid c
  pub client_id : k.socket_id ≢ 0
  pub client_found : get_tcb k.socket_id c ≡ some tcb
  pub client_state : tcb.current_state ≡ TcpState.syn_sent
  pub client_nxt : tcb.snd.nxt ≡ add32 tcb.snd.iss 1
  pub client_routed : find_connections_tcb tcb.dst_address tcb.src_address c ≡ k.socket_id
  pub server_valid : IsValid s
  pub server_ids : s.sockets.next_id ≢ 0
  pub listener_id : l.socket_id ≢ 0
  pub listener_apart : l.socket_id ≢ s.sockets.next_id
  pub listener_found : get_tcb l.socket_id s ≡ some listener
  pub listener_state : listener.current_state ≡ TcpState.listen
  pub listener_bound : Listeners.find tcb.dst_address.port s.listeners s.sockets ≡ l.socket_id
  pub unknown : find_connections_tcb tcb.src_address tcb.dst_address s ≡ 0

-- What the three segments bring about: each is what its stack sends, the server has made `child`, `connect` returns with the client's
-- block `new` established, the two blocks agree on their numbers, and `accept` gives the child behind
-- those that were waiting.
pub record IsConnected (client server : Host) (c s : TcpStack) (k l : TcpSocket)
    (tcb listener : Tcb) : Type 0 where
  pub child : Tcb
  pub new : Tcb
  pub first : TcpStack
  pub second : TcpStack
  pub third : TcpStack
  pub syn_sent :
      (process_block client k.socket_id c).net
      ≡ (send_control_packet client tcb syn_only tcb.snd.iss 0 c.net).net
  pub syn_read : first ≡ receives server (control_datagram client tcb syn_only tcb.snd.iss 0) s
  pub child_found : get_tcb s.sockets.next_id first ≡ some child
  pub answer_sent :
      first.net ≡ (send_control_packet server child syn_ack child.snd.iss child.rcv.nxt s.net).net
  pub answer_read :
      second ≡ receives client (control_datagram server child syn_ack child.snd.iss child.rcv.nxt) c
  pub new_found : get_tcb k.socket_id second ≡ some new
  pub ack_sent :
      second.net ≡ (send_control_packet client new ack_only new.snd.nxt new.rcv.nxt c.net).net
  pub ack_read :
      third ≡ receives server (control_datagram client new ack_only new.snd.nxt new.rcv.nxt) first
  pub client_done : connect_returns k second ≡ true
  pub client_open : state k second ≡ TcpState.established
  pub server_open : state (record { socket_id = s.sockets.next_id }) third ≡ TcpState.established
  pub agree : (new.snd.nxt ≡ child.rcv.nxt) × (child.snd.nxt ≡ new.rcv.nxt)
  pub accepts :
      accepted (suc (length listener.accept_queue)) l third
      ≡ listener.accept_queue ++ (s.sockets.next_id ∷ [])

net-process_block :
    (host : Host) (id : ℕ) (s : TcpStack) (tcb : Tcb)
    → get_tcb id s ≡ some tcb
    → tcb.current_state ≡ TcpState.syn_sent
    → (process_block host id s).net
      ≡ (send_control_packet host tcb syn_only tcb.snd.iss 0 s.net).net
unfolding process_block process_tcb put_tcb send_control_packet control_header free_window
net-process_block host id s tcb found state =
    let syn : is_syn_sent tcb.current_state ≡ true = ap is_syn_sent state in
    rw (process_block, found, syn) refl

-- The three segments of a handshake, each read from the datagram that the other side sends, connect a
-- client that waits in `connect` with a server that listens where it connects to, as `IsReady` says:
-- both stacks are valid, the connection is registered at the client and unknown to the server, and the
-- server still has ids. Then `IsConnected` holds: `connect` returns, and `accept` gives the child.
pub three_way_handshake :
    (client server : Host) (c s : TcpStack) (k l : TcpSocket) (tcb listener : Tcb)
    → IsReady c s k l tcb listener
    → IsConnected client server c s k l tcb listener
unfolding state connect_returns
three_way_handshake client server c s k l tcb listener r =
    let id = s.sockets.next_id in
    let v = get_tcb-IsValid r.client_valid k.socket_id r.client_found in
    let syn = control_datagram client tcb syn_only tcb.snd.iss 0 in
    let first = receives server syn s in
    let ch =
      IsChild-syn client server tcb s l.socket_id listener v r.server_ids r.listener_id
        r.listener_apart r.unknown r.listener_bound r.listener_found in
    let child = ch.child in
    let first_valid = process_incoming_packet-IsValid server syn r.server_valid in
    let child_valid = get_tcb-IsValid first_valid id ch.found in
    let routed =
      ap₂ (λ a b. find_connections_tcb a b c) ch.addressed.0 ch.addressed.1 ∙ r.client_routed in
    let op =
      IsOpen-syn_ack server client child c k tcb child_valid r.client_valid r.client_id routed
        r.client_found r.client_state (ch.counted ∙ sym r.client_nxt) in
    let numbers : child.snd.nxt ≡ op.new.rcv.nxt =
      ch.numbered.2 ∙ ap (λ n. add32 n 1) (sym ch.numbered.0) ∙ sym op.counted in
    let (server_open, accepts) =
      accept_returns-ack client server op.new first id l listener tcb.dst_address tcb.src_address
        tcb.snd.iss (u32 (server.random s.draws)) s.net ch op.valid r.server_ids r.listener_id
        r.listener_apart r.listener_state op.addressed (sym numbers) in
    record {
      child = child;
      new = op.new;
      first = first;
      second =
          receives client (control_datagram server child syn_ack child.snd.iss child.rcv.nxt) c;
      third =
          receives server (control_datagram client op.new ack_only op.new.snd.nxt op.new.rcv.nxt)
            first;
      syn_sent = net-process_block client k.socket_id c tcb r.client_found r.client_state;
      syn_read = refl;
      child_found = ch.found;
      answer_sent = ch.answered;
      answer_read = refl;
      new_found = op.found;
      ack_sent = op.answered;
      ack_read = refl;
      client_done = rw (connect_returns, op.found, op.state) refl;
      client_open = rw (state, op.found) op.state;
      server_open = server_open;
      agree = (op.nxt ∙ r.client_nxt ∙ sym ch.counted, numbers);
      accepts = accepts;
    }
