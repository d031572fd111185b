-- ===== src/System/Handshake.antt =====
-- The three segments of a handshake, between the stacks of a client and of a server.
use tiny_cp.Base.{
  ℕ, ◌^◌, ◌<◌, ◌≡◌, ◌≢◌, refl, ap, ◌∙◌, true, false, ◌==◌, some, arith, List, [], u32, add32,
}
use tiny_cp.Tcb.{Tcb, TcpState, set_state}
use tiny_cp.Tcb.Invariant as Block
use tiny_cp.Tcp.View
use tiny_cp.Tcp.View.{TcpPacketView}
use tiny_cp.Tables.Listeners
use tiny_cp.Tables.Laws.{contains_iff_find}
use tiny_cp.Stack.State.{Host, Net, TcpStack, get_tcb, put_tcb, find_connections_tcb}
use tiny_cp.Stack.Output.{
  Control, syn_only, syn_ack, ack_only, reply, send_control_packet, control_header, segment_bytes,
  datagram_bytes,
}
use tiny_cp.Stack.Segments.{control_header-Says}
use tiny_cp.Stack.Handlers.{
  stack_of, with_tcb, handle_passive_open_syn, handle_syn_sent_state, syn_sent_segment,
  acked_syn_seen, syn_seen,
}
use tiny_cp.Stack.Input.{process_incoming_packet, route, unrouted, dispatch}
use tiny_cp.Stack.Lookups.{get-put_tcb}
use tiny_cp.Stack.Invariant.{IsValid, get_tcb-IsValid}
use tiny_cp.Stack.Invariant.Arriving.{process_incoming_packet-IsValid}
use tiny_cp.Socket.{TcpSocket, state}
use tiny_cp.System.Hearing.{Hears, heard}
use tiny_cp.Stack.Input.Transitions.{route_known}
use tiny_cp.Stack.Handlers.PassiveOpen.{IsChild, handle_passive_open_syn-IsChild}

-- The datagram of a control segment, as `send_control_packet` hands it on.
abbrev pub control_datagram : Host → Tcb → Control → ℕ → ℕ → List ℕ
control_datagram host tcb c seq_num ack_num =
    datagram_bytes host tcb.src_address tcb.dst_address
      (record { header = control_header tcb c seq_num ack_num 65535; payload = [] })

pub heard_control :
    (host receiver : Host) (sender : Tcb) (c : Control) (seq acked : ℕ) (s : TcpStack)
    → Block.IsValid sender
    → seq < 2 ^ 32
    → acked < 2 ^ 32
    → (view : TcpPacketView) × (process_incoming_packet receiver
          (control_datagram host sender c seq acked)
          s
        ≡ route receiver sender.src_address sender.dst_address view s)
      × Hears view sender c seq acked []
heard_control host receiver sender c seq acked s v seq_in acked_in =
    let h = control_header sender c seq acked 65535 in
    let says = control_header-Says sender c seq acked v.src_in v.dst_in seq_in acked_in in
    let (routed, hears) =
      heard host receiver sender h c seq acked [] s v.src_in v.dst_in says (omega arith) in
    (
      segment_bytes host sender.src_address sender.dst_address
          (record { header = h; payload = [] }),
      routed,
      hears,
    )

-- The SYN, at the stack of the server.
module _ (host server : Host) (client_tcb : Tcb) (s : TcpStack) (listener_id : ℕ)
    (listener : Tcb) where
  route_syn :
      (view : TcpPacketView)
      → listener_id ≢ 0
      → find_connections_tcb client_tcb.src_address client_tcb.dst_address s ≡ 0
      → Listeners.find client_tcb.dst_address.port s.listeners s.sockets ≡ listener_id
      → View.syn view ≡ true
      → View.ack view ≡ false
      → stack_of (route server client_tcb.src_address client_tcb.dst_address view s)
        ≡ (handle_passive_open_syn server client_tcb.src_address client_tcb.dst_address view
            s).stack
  unfolding route unrouted stack_of
  route_syn view l unknown bound syn ack =
      let listens =
        (contains_iff_find client_tcb.dst_address.port s.listeners s.sockets).1 (rw bound l) in
      rw (route, unknown, unrouted, listens, syn, ack) refl

  pub IsChild-syn :
      Block.IsValid client_tcb
      → s.sockets.next_id ≢ 0
      → listener_id ≢ 0
      → listener_id ≢ s.sockets.next_id
      → find_connections_tcb client_tcb.src_address client_tcb.dst_address s ≡ 0
      → Listeners.find client_tcb.dst_address.port s.listeners s.sockets ≡ listener_id
      → get_tcb listener_id s ≡ some listener
      → IsChild server s.net client_tcb.dst_address client_tcb.src_address client_tcb.snd.iss
          (u32 (server.random s.draws))
          s.sockets.next_id
          listener_id
          listener
          (stack_of (
            process_incoming_packet server
              (control_datagram host client_tcb syn_only client_tcb.snd.iss 0)
              s))
  IsChild-syn v h l apart unknown bound there =
      let (view, arrived, hears) =
        heard_control host server client_tcb syn_only client_tcb.snd.iss 0 s v v.iss_in
          (omega arith) in
      let made =
        handle_passive_open_syn-IsChild server client_tcb.dst_address client_tcb.src_address view s
          listener_id listener h l apart bound there hears.syn hears.ack in
      rw (arrived, route_syn view l unknown bound hears.syn hears.ack) (rw hears.seq_num at made)

-- The SYN and acknowledgement, at the stack of the client.
opened : TcpPacketView → Tcb → Tcb
opened packet tcb = set_state TcpState.established (acked_syn_seen packet tcb)

get-opened :
    (host : Host) (id : ℕ) (packet : TcpPacketView) (s : TcpStack) (tcb : Tcb)
    → id ≢ 0
    → get_tcb id s ≡ some tcb
    → View.rst packet ≡ false
    → View.syn packet ≡ true
    → View.ack packet ≡ true
    → View.ack_num_ntoh packet ≡ tcb.snd.nxt
    → get_tcb id (handle_syn_sent_state host id packet s).stack ≡ some (opened packet tcb)
unfolding handle_syn_sent_state syn_sent_segment opened reply get_tcb
get-opened host id packet s tcb h found rst syn ack num =
    let same : (View.ack_num_ntoh packet == tcb.snd.nxt) ≡ true = ground (arith, num) in
    rw (handle_syn_sent_state, with_tcb, found, rst, ack, same, syn)
      (get-put_tcb id (opened packet tcb) s h)

net-opened :
    (host : Host) (id : ℕ) (packet : TcpPacketView) (s : TcpStack) (tcb : Tcb)
    → get_tcb id s ≡ some tcb
    → View.rst packet ≡ false
    → View.syn packet ≡ true
    → View.ack packet ≡ true
    → View.ack_num_ntoh packet ≡ tcb.snd.nxt
    → let new = opened packet tcb in
      (handle_syn_sent_state host id packet s).stack.net
      ≡ (send_control_packet host new ack_only new.snd.nxt new.rcv.nxt s.net).net
unfolding handle_syn_sent_state syn_sent_segment opened reply put_tcb
net-opened host id packet s tcb found rst syn ack num =
    let same : (View.ack_num_ntoh packet == tcb.snd.nxt) ≡ true = ground (arith, num) in
    rw (handle_syn_sent_state, with_tcb, found, rst, ack, same, syn) refl

-- A client whose handshake is over, and whose acknowledgement is under way.
pub record IsOpen (host : Host) (before : Net) (k : TcpSocket) (old : Tcb) (seq : ℕ) (s : TcpStack)
    : Type 0 where
  pub new : Tcb
  pub found : get_tcb k.socket_id s ≡ some new
  pub valid : Block.IsValid new
  pub state : new.current_state ≡ TcpState.established
  pub addressed : (new.src_address ≡ old.src_address) × (new.dst_address ≡ old.dst_address)
  pub nxt : new.snd.nxt ≡ old.snd.nxt
  pub counted : new.rcv.nxt ≡ add32 seq 1
  pub answered : s.net ≡ (send_control_packet host new ack_only new.snd.nxt new.rcv.nxt before).net

module _ (host client : Host) (child : Tcb) (c : TcpStack) (k : TcpSocket) (tcb : Tcb) where
  pub IsOpen-syn_ack :
      Block.IsValid child
      → IsValid c
      → k.socket_id ≢ 0
      → find_connections_tcb child.src_address child.dst_address c ≡ k.socket_id
      → get_tcb k.socket_id c ≡ some tcb
      → tcb.current_state ≡ TcpState.syn_sent
      → child.rcv.nxt ≡ tcb.snd.nxt
      → IsOpen client c.net k tcb child.snd.iss (
          stack_of (
            process_incoming_packet client
              (control_datagram host child syn_ack child.snd.iss child.rcv.nxt)
              c))
  unfolding dispatch stack_of opened acked_syn_seen syn_seen set_state
  IsOpen-syn_ack v w h routed found state num =
      let (view, arrived, hears) =
        heard_control host client child syn_ack child.snd.iss child.rcv.nxt c v v.iss_in
          v.rcv_nxt_in in
      let datagram = control_datagram host child syn_ack child.snd.iss child.rcv.nxt in
      let after = stack_of (process_incoming_packet client datagram c) in
      let there =
        get-opened client k.socket_id view c tcb h found hears.rst hears.syn hears.ack
          (hears.ack_num ∙ num) in
      let path = ap stack_of (
        arrived
        ∙ route_known client view c k.socket_id tcb child.src_address child.dst_address h routed
            found
        ∙ ap (λ q. dispatch client k.socket_id child.src_address child.dst_address view q c)
            state) in
      let at : get_tcb k.socket_id after ≡ some (opened view tcb) =
        ap (get_tcb k.socket_id) path ∙ there in
      record {
        new = opened view tcb;
        found = at;
        valid = get_tcb-IsValid (process_incoming_packet-IsValid client datagram w) k.socket_id at;
        state = refl;
        addressed = (refl, refl);
        nxt = refl;
        counted = ap (λ n. add32 n 1) hears.seq_num;
        answered =
            ap (λ (t : TcpStack). t.net) path
            ∙ net-opened client k.socket_id view c tcb found hears.rst hears.syn hears.ack
                (hears.ack_num ∙ num);
      }
