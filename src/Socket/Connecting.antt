-- ===== src/Socket/Connecting.antt =====
-- The block from which `connect` sends its SYN.
use tiny_cp.Base.{
  if◌then◌else◌, Option, sym, ◌⊎◌, ℕ, ◌≡◌, ◌≢◌, refl, ap, ◌∙◌, true, false, not, ◌||◌, ◌==◌,
  Bool-cases, Option-cases, inl, inr, none, some, arith, List, [], ◌∷◌, ◌++◌, u32, add32,
}
use tiny_cp.Base.Map.{nat_eq, lookup-insert}
use tiny_cp.Address.{Ipv4Address, no_address}
use tiny_cp.Tcb.{Tcb, TcpState, new_tcb, set_state}
use tiny_cp.Tables.Sockets
use tiny_cp.Tables.Sockets.{SocketTable}
use tiny_cp.Tables.Laws.{find_socket-create_socket, find-register_connection}
use tiny_cp.Tables.Connections
use tiny_cp.Stack.State.{
  Host, TcpStack, get_tcb, put_tcb, find_connections_tcb, generate_random_uint32,
}
use tiny_cp.Stack.Close.{complete_address, register_connection}
use tiny_cp.Stack.Lookups.{
  add_dirty_tcb_alive, get-put_tcb, contains-put_tcb, find_connections_tcb-put_tcb,
}
use tiny_cp.Socket.Opening.{sockets-complete_address, filled, complete_address_lem}
use tiny_cp.Socket.{TcpSocket, WithSocket, own_address, opening, queue_syn, start_connect}

-- A block that is found, with its two addresses.
abbrev pub Has : ℕ → Ipv4Address → Ipv4Address → SocketTable → Type 0
Has id local_addr remote_addr t =
    (tcb : Tcb) × (Sockets.find_socket id t ≡ some tcb)
    × (tcb.src_address ≡ local_addr)
    × (tcb.dst_address ≡ remote_addr)

find-created :
    (local_addr remote_addr : Ipv4Address) (t : SocketTable)
    → t.next_id ≢ 0
    → let made = Sockets.create_socket TcpState.closed local_addr remote_addr t in
      Has made.id local_addr remote_addr made.table
unfolding Sockets.create_socket new_tcb
find-created local_addr remote_addr t h =
    let same : (t.next_id == t.next_id) ≡ true = ground arith in
    (
      record (new_tcb TcpState.closed local_addr remote_addr) { id = t.next_id },
      find_socket-create_socket TcpState.closed local_addr remote_addr t t.next_id h ∙ rw same refl,
      refl,
      refl,
    )

find-stored :
    (id : ℕ) (tcb : Tcb) (t : SocketTable)
    → id ≢ 0
    → Sockets.find_socket id (Sockets.store id tcb t) ≡ some tcb
unfolding Sockets.find_socket Sockets.store
find-stored id tcb t h = ground (arith, lookup-insert id id tcb t.sockets)

contains-absent :
    (id : ℕ) (t : SocketTable) → Sockets.find_socket id t ≡ none → Sockets.contains id t ≡ false
unfolding Sockets.find_socket Sockets.contains
contains-absent id t h = ground (arith, h)

Has-claim :
    (local_addr remote_addr : Ipv4Address) (id : ℕ) (t : SocketTable)
    → t.next_id ≢ 0
    → let made = Connections.claim local_addr remote_addr id t in
      Has made.id local_addr remote_addr made.table
unfolding Connections.claim
Has-claim local_addr remote_addr id t h =
    elim (Bool-cases (id == 0 || not (Sockets.contains id t))) [
      | inl new ↦ rw new (find-created local_addr remote_addr t h)
      | inr old ↦ elim (Option-cases (Sockets.find_socket id t)) [
        | inl absent ↦ absurd (ground (arith, old, contains-absent id t absent))
        | inr (tcb, found) ↦
            let moved : Tcb = record tcb { src_address = local_addr; dst_address = remote_addr } in
            rw (Connections.claim, old, found)
              (moved, find-stored id moved t (ground (arith, old)), refl, refl)
      ]
    ]

-- A socket that begins to connect: its block is in SYN_SENT, between the given addresses, with its
-- SYN counted; the connection is routed to it, and the daemon will send the SYN.
pub record IsOpening (own remote : Ipv4Address) (number : ℕ) (marks : List ℕ) (out : WithSocket)
    : Type 0 where
  pub new : Tcb
  pub found : get_tcb out.socket.socket_id out.stack ≡ some new
  pub state : new.current_state ≡ TcpState.syn_sent
  pub addressed : (new.src_address ≡ own) × (new.dst_address ≡ remote)
  pub numbered : (new.snd.iss ≡ number) × (new.snd.una ≡ number) × (new.snd.nxt ≡ add32 number 1)
  pub routed : find_connections_tcb remote own out.stack ≡ out.socket.socket_id
  pub marked : out.stack.dirty_socket_ids ≡ marks ++ (out.socket.socket_id ∷ [])

queue_syn-IsOpening :
    (host : Host) (own remote : Ipv4Address) (id : ℕ) (tcb : Tcb) (s : TcpStack)
    → id ≢ 0
    → (tcb.src_address ≡ own) × (tcb.dst_address ≡ remote)
    → find_connections_tcb remote own s ≡ id
    → IsOpening own remote
        (u32 (host.random s.draws))
        s.dirty_socket_ids
        (record { socket = record { socket_id = id }; stack = queue_syn host id tcb s })
unfolding queue_syn generate_random_uint32 opening set_state put_tcb get_tcb find_connections_tcb
queue_syn-IsOpening host own remote id tcb s h addressed routed =
    let drawn = generate_random_uint32 host s in
    let new = opening drawn.number tcb in
    let put = put_tcb id new drawn.stack in
    let dirty = add_dirty_tcb_alive id put h (contains-put_tcb id new drawn.stack h) in
    rw dirty (record {
      new = new;
      found = get-put_tcb id new drawn.stack h;
      state = refl;
      addressed = addressed;
      numbered = (refl, refl, refl);
      routed = find_connections_tcb-put_tcb remote own id id new drawn.stack h routed;
      marked = refl;
    })

start_connect_of :
    (host : Host) (addr : Ipv4Address) (k : TcpSocket) (s : TcpStack) (tcb : Tcb)
    → let made =
        register_connection host (own_address (get_tcb k.socket_id s)) addr k.socket_id s in
      get_tcb made.id made.stack ≡ some tcb
      → start_connect host addr k s ≡ record {
        socket = record { socket_id = made.id };
        stack = queue_syn host made.id tcb made.stack;
      }
unfolding start_connect
start_connect_of host addr k s tcb found = rw (start_connect, found) refl

IsOpening-at :
    {own given remote : Ipv4Address} {drawn number : ℕ} {dirty marks : List ℕ} {out : WithSocket}
    → own ≡ given
    → drawn ≡ number
    → dirty ≡ marks
    → IsOpening own remote drawn dirty out
    → IsOpening given remote number marks out
IsOpening-at e d m h = rw (sym e, sym d, sym m) h

-- The address that a socket has, or none.
own_address_of :
    (found : Option Tcb) (given : Ipv4Address)
    → ((found ≡ none) × (given ≡ no_address))
      ⊎ ((tcb : Tcb) × (found ≡ some tcb) × (given ≡ tcb.src_address))
    → own_address found ≡ given
unfolding own_address
own_address_of found given (inl (absent, e)) = ap own_address absent ∙ sym e
own_address_of found given (inr (tcb, there, e)) = ap own_address there ∙ sym e

-- The socket that `connect` uses, from the state before.
id-register_connection :
    (host : Host) (own remote : Ipv4Address) (id : ℕ) (s : TcpStack)
    → (register_connection host own remote id s).id
      ≡ (if id == 0 || not (Sockets.contains id s.sockets) then s.sockets.next_id else id)
unfolding register_connection Connections.register_connection Connections.claim
    Sockets.create_socket
id-register_connection host own remote id s =
    let same = sockets-complete_address host own s in
    rw same (elim (Bool-cases (id == 0 || not (Sockets.contains id s.sockets))) [
      | inl new ↦ rw new refl
      | inr old ↦ rw old refl
    ])

begun-IsOpening :
    (host : Host) (addr : Ipv4Address) (k : TcpSocket) (s : TcpStack)
    → s.sockets.next_id ≢ 0
    → let own = complete_address host (own_address (get_tcb k.socket_id s)) s in
      IsOpening own.addr addr
        (u32 (host.random own.stack.draws))
        own.stack.dirty_socket_ids
        (start_connect host addr k s)
unfolding register_connection Connections.register_connection get_tcb find_connections_tcb
begun-IsOpening host addr k s h =
    let own = complete_address host (own_address (get_tcb k.socket_id s)) s in
    let same = sockets-complete_address host (own_address (get_tcb k.socket_id s)) s in
    let live : own.stack.sockets.next_id ≢ 0 =
      ground (arith, ap (λ (t : SocketTable). t.next_id) same) in
    let (tcb, found, src, dst) = Has-claim own.addr addr k.socket_id own.stack.sockets live in
    let (routed, nonzero) =
      find-register_connection own.addr addr k.socket_id own.stack.connections own.stack.sockets
        live in
    let made = register_connection host (own_address (get_tcb k.socket_id s)) addr k.socket_id s in
    rw (start_connect_of host addr k s tcb found)
      (queue_syn-IsOpening host own.addr addr made.id tcb made.stack nonzero (src, dst) routed)

-- `connect` on a stack that still has ids begins as `IsOpening` says. The socket is the given one
-- where it is live, and else a new one with the next id. Its own address is that of its block, or
-- `no_address` without one, with the address of the interface where the address is 0 and a port
-- from `allocate_ephemeral_port` where the port is 0. Its sequence number is the next random one,
-- and the marks are those before with its own behind them.
pub start_connect-IsOpening :
    (host : Host) (addr given : Ipv4Address) (k : TcpSocket) (s : TcpStack)
    → s.sockets.next_id ≢ 0
    → ((get_tcb k.socket_id s ≡ none) × (given ≡ no_address))
      ⊎ ((tcb : Tcb) × (get_tcb k.socket_id s ≡ some tcb) × (given ≡ tcb.src_address))
    → let out = start_connect host addr k s in
      (out.socket.socket_id ≡ (
        if k.socket_id == 0 || not (Sockets.contains k.socket_id s.sockets)
        then s.sockets.next_id
        else k.socket_id))
      × IsOpening (filled host given s) addr (u32 (host.random s.draws)) s.dirty_socket_ids out
unfolding start_connect
start_connect-IsOpening host addr given k s h known =
    let local = own_address (get_tcb k.socket_id s) in
    let (at, draws, marks) = complete_address_lem host local s in
    let at_given =
      at ∙ ap (λ a. filled host a s) (own_address_of (get_tcb k.socket_id s) given known) in
    (
      id-register_connection host local addr k.socket_id s,
      IsOpening-at at_given (ap (λ n. u32 (host.random n)) draws) marks
          (begun-IsOpening host addr k s h),
    )
