-- ===== src/Stack/Handlers/PassiveOpen.antt =====
-- A SYN for a port on which a socket listens.
use tiny_cp.Base.{
  ℕ, ◌≡◌, ◌≢◌, refl, sym, ◌∙◌, true, false, ◌==◌, Option-cases, inl, inr, some, arith, u32, add32,
}
use tiny_cp.Base.{Bool-cases, not, ◌&&◌}
use tiny_cp.Base.Map.{nat_eq, lookup, lookup-insert}
use tiny_cp.Address.{Ipv4Address}
use tiny_cp.Tcb.{Tcb, TcpState, new_tcb}
use tiny_cp.Tcp.View
use tiny_cp.Tcp.View.{TcpPacketView}
use tiny_cp.Tables.Sockets
use tiny_cp.Tables.Listeners
use tiny_cp.Tables.Connections
use tiny_cp.Tables.Connections.{connection_key_eq, key, key_eq_iff}
use tiny_cp.Tables.Laws.{find_socket-create_socket}
use tiny_cp.Stack.State.{
  Host, Net, TcpStack, get_tcb, put_tcb, find_connections_tcb, generate_random_uint32,
}
use tiny_cp.Stack.Output.{reply, send_control_packet, syn_ack}
use tiny_cp.Stack.Handlers.{with_tcb, handle_passive_open_syn, open_child, child_tcb}
use tiny_cp.Stack.Lookups.{get-put_tcb, get-put_other, contains-put_tcb, find-put_tcb}

-- The stack with the block of a child, before the SYN is taken in.
created : Ipv4Address → Ipv4Address → TcpStack → TcpStack
created own remote s = record s {
  sockets = (Sockets.create_socket TcpState.syn_received own remote s.sockets).table;
}

-- That block.
fresh : Ipv4Address → Ipv4Address → TcpStack → Tcb
fresh own remote s = record (new_tcb TcpState.syn_received own remote) { id = s.sockets.next_id }

module _ (own remote : Ipv4Address) (s : TcpStack) (h : s.sockets.next_id ≢ 0) where
  get-created : get_tcb s.sockets.next_id (created own remote s) ≡ some (fresh own remote s)
  unfolding get_tcb created fresh
  get-created =
      let same : (s.sockets.next_id == s.sockets.next_id) ≡ true = ground arith in
      find_socket-create_socket TcpState.syn_received own remote s.sockets s.sockets.next_id h
      ∙ rw same refl

  get-created_other :
      (id : ℕ) → id ≢ s.sockets.next_id → get_tcb id (created own remote s) ≡ get_tcb id s
  unfolding get_tcb created
  get-created_other id other =
      let apart : (id == s.sockets.next_id) ≡ false = ground arith in
      find_socket-create_socket TcpState.syn_received own remote s.sockets id h ∙ rw apart refl

  find-created :
      (port id : ℕ)
      → id ≢ 0
      → Listeners.find port s.listeners s.sockets ≡ id
      → Listeners.find port (created own remote s).listeners (created own remote s).sockets ≡ id
  unfolding Listeners.find created Sockets.contains Sockets.create_socket
  find-created port id nonzero found = elim (Option-cases (lookup port s.listeners)) [
    | inl absent ↦ ground (arith, absent)
    | inr (there, bound) ↦ ground (
      arith,
      bound,
      lookup-insert s.sockets.next_id there
          (record (new_tcb TcpState.syn_received own remote) { id = s.sockets.next_id })
          s.sockets.sockets,
    )
  ]

-- The child of a listener, once the SYN is taken in: in SYN_RECEIVED, between the two endpoints, with
-- its own SYN and that of its peer counted; the connection is routed to it, the
-- listener is as it was, and the answer is under way.
pub record IsChild (host : Host) (before : Net) (own remote : Ipv4Address)
    (seq number id listener_id : ℕ) (listener : Tcb) (s : TcpStack) : Type 0 where
  pub child : Tcb
  pub found : get_tcb id s ≡ some child
  pub state : child.current_state ≡ TcpState.syn_received
  pub addressed : (child.src_address ≡ own) × (child.dst_address ≡ remote)
  pub numbered :
      (child.snd.iss ≡ number) × (child.snd.una ≡ number) × (child.snd.nxt ≡ add32 number 1)
  pub counted : child.rcv.nxt ≡ add32 seq 1
  pub routed : find_connections_tcb remote own s ≡ id
  pub listens : Listeners.find own.port s.listeners s.sockets ≡ listener_id
  pub listener_found : get_tcb listener_id s ≡ some listener
  pub answered :
      s.net ≡ (send_control_packet host child syn_ack child.snd.iss child.rcv.nxt before).net

find_connections_tcb-insert_id :
    (own remote : Ipv4Address) (id : ℕ) (s : TcpStack)
    → id ≢ 0
    → Sockets.contains id s.sockets ≡ true
    → find_connections_tcb remote own
        (record s { connections = Connections.insert_id remote own id s.connections })
      ≡ id
unfolding find_connections_tcb Connections.find Connections.insert_id
find_connections_tcb-insert_id own remote id s h alive =
    let k = key remote own in
    ground (arith, alive, key_eq_iff k k, lookup-insert k k id s.connections)

module _ (host : Host) (own remote : Ipv4Address) (packet : TcpPacketView) (s : TcpStack) where
  -- Every other block is as it was.
  get-open_child :
      (id : ℕ)
      → s.sockets.next_id ≢ 0
      → id ≢ s.sockets.next_id
      → get_tcb id
          (open_child host remote own packet s.sockets.next_id
            (fresh own remote s)
            (created own remote s)).stack
        ≡ get_tcb id s
  unfolding open_child child_tcb generate_random_uint32 reply get_tcb put_tcb created fresh new_tcb
  get-open_child id h apart =
      let drawn = generate_random_uint32 host (created own remote s) in
      let child = child_tcb packet drawn.number (fresh own remote s) in
      get-put_other id s.sockets.next_id child drawn.stack (λ e. apart (sym e))
      ∙ get-created_other own remote s h id apart

  pub get-handle_passive_open_syn :
      (id : ℕ)
      → s.sockets.next_id ≢ 0
      → id ≢ s.sockets.next_id
      → get_tcb id (handle_passive_open_syn host remote own packet s).stack ≡ get_tcb id s
  unfolding handle_passive_open_syn created Sockets.create_socket
  get-handle_passive_open_syn id h apart =
      elim (Bool-cases (
        not (Listeners.find own.port s.listeners s.sockets == 0)
        && View.syn packet
        && not (View.ack packet))) [
          | inl opens ↦
              rw (handle_passive_open_syn, with_tcb, opens, get-created own remote s h)
                (get-open_child id h apart)
          | inr other ↦ rw other refl
        ]

module _ (host : Host) (own remote : Ipv4Address) (packet : TcpPacketView) (s : TcpStack)
    (listener_id : ℕ) (listener : Tcb) where
  IsChild-open_child :
      s.sockets.next_id ≢ 0
      → listener_id ≢ 0
      → listener_id ≢ s.sockets.next_id
      → Listeners.find own.port s.listeners s.sockets ≡ listener_id
      → get_tcb listener_id s ≡ some listener
      → IsChild host s.net own remote
          (View.seq_num_ntoh packet)
          (u32 (host.random s.draws))
          s.sockets.next_id
          listener_id
          listener
          (open_child host remote own packet s.sockets.next_id
            (fresh own remote s)
            (created own remote s)).stack
  unfolding open_child child_tcb generate_random_uint32 reply get_tcb put_tcb find_connections_tcb
      created fresh new_tcb
  IsChild-open_child h l apart bound there =
      let id = s.sockets.next_id in
      let drawn = generate_random_uint32 host (created own remote s) in
      let child = child_tcb packet drawn.number (fresh own remote s) in
      let stored = put_tcb id child drawn.stack in
      record {
        child = child;
        found = get-put_tcb id child drawn.stack h;
        state = refl;
        addressed = (refl, refl);
        numbered = (refl, refl, refl);
        counted = refl;
        routed =
            find_connections_tcb-insert_id own remote id stored h
              (contains-put_tcb id child drawn.stack h);
        listens =
            find-put_tcb own.port listener_id id child drawn.stack l
              (find-created own remote s h own.port listener_id l bound);
        listener_found =
            get-put_other listener_id id child drawn.stack (λ e. apart (sym e))
            ∙ get-created_other own remote s h listener_id apart
            ∙ there;
        answered = refl;
      }

  -- A SYN for the port of a listener makes the listener a child.
  pub handle_passive_open_syn-IsChild :
      s.sockets.next_id ≢ 0
      → listener_id ≢ 0
      → listener_id ≢ s.sockets.next_id
      → Listeners.find own.port s.listeners s.sockets ≡ listener_id
      → get_tcb listener_id s ≡ some listener
      → View.syn packet ≡ true
      → View.ack packet ≡ false
      → IsChild host s.net own remote
          (View.seq_num_ntoh packet)
          (u32 (host.random s.draws))
          s.sockets.next_id
          listener_id
          listener
          (handle_passive_open_syn host remote own packet s).stack
  unfolding handle_passive_open_syn created Sockets.create_socket
  handle_passive_open_syn-IsChild h l apart bound there syn ack =
      let nonzero : (listener_id == 0) ≡ false = ground arith in
      rw (handle_passive_open_syn, with_tcb, bound, nonzero, syn, ack, get-created own remote s h)
        (IsChild-open_child h l apart bound there)
