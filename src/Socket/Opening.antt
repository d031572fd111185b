-- ===== src/Socket/Opening.antt =====
-- The blocks with which `bind` and `connect` begin.
use tiny_cp.Base.{
  if◌then◌else◌, sym, ℕ, ◌≡◌, ◌≢◌, refl, ap, ◌∙◌, true, ◌==◌, Bool-cases, inl, inr, some, arith,
  u32,
}
use tiny_cp.Base.Map.{nat_eq, lookup-insert}
use tiny_cp.Address.{Ipv4Address, no_address}
use tiny_cp.Tcb.{Tcb, TcpState, new_tcb}
use tiny_cp.Tables.Sockets
use tiny_cp.Tables.Sockets.{SocketTable}
use tiny_cp.Tables.Laws.{find_socket-create_socket}
use tiny_cp.Tables.Listeners
use tiny_cp.Stack.State.{Host, TcpStack, get_tcb, bind_socket, generate_random_uint32}
use tiny_cp.Tun.{get_usable_ip_address}
use tiny_cp.Stack.Close.{complete_address}
use tiny_cp.Stack.Ports.{allocate_ephemeral_port}
use tiny_cp.Stack.Lookups.{get-put_tcb, find-put_tcb}
use tiny_cp.Socket.{WithSocket, bind, number_block}

same_key : (n : ℕ) → (n == n) ≡ true
same_key n = ground arith

pub sockets-complete_address :
    (host : Host) (addr : Ipv4Address) (s : TcpStack)
    → (complete_address host addr s).stack.sockets ≡ s.sockets
unfolding complete_address allocate_ephemeral_port
sockets-complete_address host addr s = elim (Bool-cases (addr.port == 0)) [
  | inl any ↦ rw any refl
  | inr own ↦ rw own refl
]

-- An address whose parts are kept, but where they are 0: there the interface gives the address, and
-- the counter of the ports the port.
abbrev pub filled : Host → Ipv4Address → TcpStack → Ipv4Address
filled host addr s = record {
  address = if addr.address == 0 then (get_usable_ip_address host.os).address else addr.address;
  port = if addr.port == 0 then (allocate_ephemeral_port s).port else addr.port;
}

-- `complete_address` fills the address in, draws no number and marks no socket.
pub complete_address_lem :
    (host : Host) (addr : Ipv4Address) (s : TcpStack)
    → let own = complete_address host addr s in
      (own.addr ≡ filled host addr s)
      × (own.stack.draws ≡ s.draws)
      × (own.stack.dirty_socket_ids ≡ s.dirty_socket_ids)
unfolding complete_address allocate_ephemeral_port
complete_address_lem host addr s = elim (Bool-cases (addr.port == 0)) [
  | inl any ↦ rw any (refl, refl, refl)
  | inr own ↦ rw own (refl, refl, refl)
]

-- The block that `bind_new` makes.
abbrev pub bound_tcb : Ipv4Address → ℕ → Tcb
bound_tcb addr id = record (new_tcb TcpState.closed addr no_address) { id = id }

get-bind_socket :
    (addr : Ipv4Address) (s : TcpStack)
    → s.sockets.next_id ≢ 0
    → get_tcb s.sockets.next_id (bind_socket addr s).stack ≡ some (bound_tcb addr s.sockets.next_id)
unfolding bind_socket get_tcb Listeners.bind_new
get-bind_socket addr s h =
    find_socket-create_socket TcpState.closed addr no_address s.sockets s.sockets.next_id h
    ∙ rw (same_key s.sockets.next_id) refl

find-bind_socket :
    (addr : Ipv4Address) (s : TcpStack)
    → s.sockets.next_id ≢ 0
    → Listeners.find addr.port
        (bind_socket addr s).stack.listeners
        (bind_socket addr s).stack.sockets
      ≡ s.sockets.next_id
unfolding bind_socket Listeners.bind_new Listeners.find Sockets.contains Sockets.create_socket
find-bind_socket addr s h =
    let id = s.sockets.next_id in
    ground (
      arith,
      lookup-insert addr.port addr.port id s.listeners,
      lookup-insert id id (bound_tcb addr id) s.sockets.sockets,
    )

-- A socket that was bound to an address: its block is closed, with a sequence number of its own, and
-- is found under its port.
pub record IsBound (own : Ipv4Address) (number : ℕ) (out : WithSocket) : Type 0 where
  pub new : Tcb
  pub found : get_tcb out.socket.socket_id out.stack ≡ some new
  pub closed : new.current_state ≡ TcpState.closed
  pub addressed : new.src_address ≡ own
  pub numbered : (new.snd.iss ≡ number) × (new.snd.nxt ≡ number)
  pub listed : Listeners.find own.port out.stack.listeners out.stack.sockets ≡ out.socket.socket_id

numbered-IsBound :
    (host : Host) (own : Ipv4Address) (s : TcpStack)
    → s.sockets.next_id ≢ 0
    → IsBound own (u32 (host.random s.draws)) (record {
      socket = record { socket_id = s.sockets.next_id };
      stack =
          number_block host s.sockets.next_id
            (bound_tcb own s.sockets.next_id)
            (bind_socket own s).stack;
    })
unfolding number_block generate_random_uint32 bind_socket new_tcb
numbered-IsBound host own s h =
    let id = s.sockets.next_id in
    let drawn = generate_random_uint32 host (bind_socket own s).stack in
    let new : Tcb = record (bound_tcb own id) {
      snd = record ((bound_tcb own id).snd) { iss = drawn.number; nxt = drawn.number };
    } in
    record {
      new = new;
      found = get-put_tcb id new drawn.stack h;
      closed = refl;
      addressed = refl;
      numbered = (refl, refl);
      listed = find-put_tcb own.port id id new drawn.stack h (find-bind_socket own s h);
    }

bind_of :
    (host : Host) (addr : Ipv4Address) (s : TcpStack)
    → s.sockets.next_id ≢ 0
    → let own = complete_address host addr s in
      let id = own.stack.sockets.next_id in
      bind host addr s ≡ record {
        socket = record { socket_id = id };
        stack = number_block host id (bound_tcb own.addr id) (bind_socket own.addr own.stack).stack;
      }
unfolding bind bind_socket Listeners.bind_new Sockets.create_socket
bind_of host addr s h =
    let own = complete_address host addr s in
    let same = ap (λ (t : SocketTable). t.next_id) (sockets-complete_address host addr s) in
    rw (get-bind_socket own.addr own.stack (ground (arith, same))) refl

IsBound-at :
    {own given : Ipv4Address} {drawn number : ℕ} {out : WithSocket}
    → own ≡ given
    → drawn ≡ number
    → IsBound own drawn out
    → IsBound given number out
IsBound-at e d h = rw (sym e, sym d) h

-- `bind` on a stack that still has ids makes a new socket, whose id is the next one. It is bound to
-- the given address, with the address of the interface where the address is 0 and a port from
-- `allocate_ephemeral_port` where the port is 0, and its sequence number is the next random one.
pub bind-IsBound :
    (host : Host) (addr : Ipv4Address) (s : TcpStack)
    → s.sockets.next_id ≢ 0
    → let out = bind host addr s in
      (out.socket.socket_id ≡ s.sockets.next_id)
      × IsBound (filled host addr s) (u32 (host.random s.draws)) out
bind-IsBound host addr s h =
    let own = complete_address host addr s in
    let same = ap (λ (t : SocketTable). t.next_id) (sockets-complete_address host addr s) in
    let (at, draws, _) = complete_address_lem host addr s in
    let made = numbered-IsBound host own.addr own.stack (ground (arith, same)) in
    rw (bind_of host addr s h) (same, IsBound-at at (ap (λ n. u32 (host.random n)) draws) made)
