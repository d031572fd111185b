-- ===== src/Stack/Lookups.antt =====
-- What the tables give after a write through a block's pointer.
use tiny_cp.Base.{ℕ, ◌++◌, [], ◌∷◌, ◌≡◌, ◌≢◌, true, Option-cases, inl, inr, some, arith}
use tiny_cp.Base.Map.{nat_eq, lookup, lookup-insert}
use tiny_cp.Address.{Ipv4Address}
use tiny_cp.Tcb.{Tcb}
use tiny_cp.Tables.Sockets
use tiny_cp.Tables.Listeners
use tiny_cp.Tables.Connections
use tiny_cp.Tables.Connections.{connection_key_eq, key}
use tiny_cp.Stack.State.{TcpStack, get_tcb, put_tcb, add_dirty_tcb, find_connections_tcb}

pub get-put_tcb :
    (id : ℕ) (tcb : Tcb) (s : TcpStack) → id ≢ 0 → get_tcb id (put_tcb id tcb s) ≡ some tcb
unfolding get_tcb put_tcb Sockets.find_socket Sockets.store
get-put_tcb id tcb s h = ground (arith, lookup-insert id id tcb s.sockets.sockets)

pub get-put_other :
    (id other : ℕ) (t : Tcb) (s : TcpStack)
    → other ≢ id
    → get_tcb id (put_tcb other t s) ≡ get_tcb id s
unfolding get_tcb put_tcb Sockets.find_socket Sockets.store
get-put_other id other t s h = ground (arith, lookup-insert other id t s.sockets.sockets)

pub contains-put_tcb :
    (id : ℕ) (tcb : Tcb) (s : TcpStack)
    → id ≢ 0
    → Sockets.contains id (put_tcb id tcb s).sockets ≡ true
unfolding put_tcb Sockets.contains Sockets.store
contains-put_tcb id tcb s h = ground (arith, lookup-insert id id tcb s.sockets.sockets)

pub contains-put_other :
    (id other : ℕ) (t : Tcb) (s : TcpStack)
    → Sockets.contains id s.sockets ≡ true
    → Sockets.contains id (put_tcb other t s).sockets ≡ true
unfolding put_tcb Sockets.contains Sockets.store
contains-put_other id other t s h = ground (arith, lookup-insert other id t s.sockets.sockets)

-- A listener is found as before.
pub find-put_tcb :
    (port id other : ℕ) (t : Tcb) (s : TcpStack)
    → id ≢ 0
    → Listeners.find port s.listeners s.sockets ≡ id
    → Listeners.find port (put_tcb other t s).listeners (put_tcb other t s).sockets ≡ id
unfolding Listeners.find put_tcb
find-put_tcb port id other t s h found = elim (Option-cases (lookup port s.listeners)) [
  | inl absent ↦ ground (arith, absent)
  | inr (there, bound) ↦ ground (arith, bound, contains-put_other there other t s)
]

-- A connection is found as before.
pub find_connections_tcb-put_tcb :
    (remote_addr local_addr : Ipv4Address) (id other : ℕ) (t : Tcb) (s : TcpStack)
    → id ≢ 0
    → find_connections_tcb remote_addr local_addr s ≡ id
    → find_connections_tcb remote_addr local_addr (put_tcb other t s) ≡ id
unfolding find_connections_tcb Connections.find put_tcb
find_connections_tcb-put_tcb remote_addr local_addr id other t s h found =
    elim (Option-cases (lookup (key remote_addr local_addr) s.connections)) [
      | inl absent ↦ ground (arith, absent)
      | inr (there, bound) ↦ ground (arith, bound, contains-put_other there other t s)
    ]

-- A live socket is marked at the end of the queue.
pub add_dirty_tcb_alive :
    (id : ℕ) (s : TcpStack)
    → id ≢ 0
    → Sockets.contains id s.sockets ≡ true
    → add_dirty_tcb id s ≡ record s { dirty_socket_ids = s.dirty_socket_ids ++ (id ∷ []) }
unfolding add_dirty_tcb
add_dirty_tcb_alive id s h alive = ground (arith, alive)
