-- ===== src/Tables/Laws.antt =====
-- Lookups in the tables after the operations that change them.
use tiny_cp.Base.{
  ℕ, ◌≡◌, ◌≢◌, ◌↔◌, true, false, none, some, arith, Option-cases, inl, inr, ◌==◌, if◌then◌else◌,
}
use tiny_cp.Base.Map.{nat_eq, lookup-insert, lookup-erase}
use tiny_cp.Address.{Ipv4Address}
use tiny_cp.Tcb.{TcpState, new_tcb}
use tiny_cp.Tables.Sockets
use tiny_cp.Tables.Sockets.{SocketTable}
use tiny_cp.Tables.Listeners
use tiny_cp.Tables.Connections
use tiny_cp.Tables.Connections.{key, key_eq, connection_key_eq, key_eq_iff, ConnectionTable}

-- A created socket is found under its id, as the constructor made it and with that id, and every
-- other socket is found as before.
pub find_socket-create_socket :
    (state : TcpState) (src dst : Ipv4Address) (t : SocketTable) (id : ℕ)
    → t.next_id ≢ 0
    → Sockets.find_socket id (Sockets.create_socket state src dst t).table ≡ (
        if id == t.next_id
        then some (record (new_tcb state src dst) { id = t.next_id })
        else Sockets.find_socket id t)
unfolding Sockets.find_socket Sockets.create_socket
find_socket-create_socket state src dst t id h = ground (
  arith,
  lookup-insert t.next_id id (record (new_tcb state src dst) { id = t.next_id }) t.sockets,
)

-- A destroyed socket is not found, and every other is found as before; the answer says whether
-- there was one.
pub find_socket-destroy_socket :
    (t : SocketTable) (id other : ℕ)
    → (Sockets.find_socket other (Sockets.destroy_socket id t).table
        ≡ (if other == id then none else Sockets.find_socket other t))
      × ((Sockets.destroy_socket id t).found ≡ Sockets.contains id t)
unfolding Sockets.find_socket Sockets.destroy_socket Sockets.contains
find_socket-destroy_socket t id other = ground (arith, lookup-erase id other t.sockets)

-- A registered connection is found if its socket is alive, and every other as before.
pub find-insert_id :
    (remote_addr local_addr r l : Ipv4Address) (id : ℕ) (t : ConnectionTable)
    (sockets : SocketTable)
    → Connections.find r l (Connections.insert_id remote_addr local_addr id t) sockets ≡ (
        if key_eq (key remote_addr local_addr) (key r l)
        then (if Sockets.contains id sockets then id else 0)
        else Connections.find r l t sockets)
unfolding Connections.find Connections.insert_id
find-insert_id remote_addr local_addr r l id t sockets =
    ground (arith, lookup-insert (key remote_addr local_addr) (key r l) id t)

contains-claim :
    (local_addr remote_addr : Ipv4Address) (id : ℕ) (sockets : SocketTable)
    → sockets.next_id ≢ 0
    → let made = Connections.claim local_addr remote_addr id sockets in
      (Sockets.contains made.id made.table ≡ true) × (made.id ≢ 0)
unfolding Connections.claim Sockets.create_socket Sockets.store Sockets.contains Sockets.find_socket
contains-claim local_addr remote_addr id sockets h =
    elim (Option-cases (Sockets.find_socket id sockets)) [
      | inl absent ↦
          let new = record (new_tcb TcpState.closed local_addr remote_addr) {
            id = sockets.next_id;
          } in
          ground (arith, lookup-insert sockets.next_id sockets.next_id new sockets.sockets)
      | inr (tcb, present) ↦
          let moved = record tcb { src_address = local_addr; dst_address = remote_addr } in
          let new = record (new_tcb TcpState.closed local_addr remote_addr) {
            id = sockets.next_id;
          } in
          ground (
            arith,
            present,
            lookup-insert id id moved sockets.sockets,
            lookup-insert sockets.next_id sockets.next_id new sockets.sockets,
          )
    ]

-- A registered connection is found under its two addresses, with the id that the registration
-- gave, which is not 0.
pub find-register_connection :
    (local_addr remote_addr : Ipv4Address) (id : ℕ) (t : ConnectionTable) (sockets : SocketTable)
    → sockets.next_id ≢ 0
    → let r = Connections.register_connection local_addr remote_addr id t sockets in
      (Connections.find remote_addr local_addr r.connections r.sockets ≡ r.id) × (r.id ≢ 0)
unfolding Connections.find Connections.register_connection
find-register_connection local_addr remote_addr id t sockets h =
    let k = key remote_addr local_addr in
    let made = Connections.claim local_addr remote_addr id sockets in
    let (alive, nonzero) = contains-claim local_addr remote_addr id sockets h in
    ground (arith, alive, nonzero, key_eq_iff k k, lookup-insert k k made.id t)

-- A listener is found under its port if its socket is alive, and every other as before.
pub find-bind :
    (port other id : ℕ) (t : Listeners.ListenerTable) (sockets : SocketTable)
    → Listeners.find other (Listeners.bind port id t) sockets ≡ (
        if other == port
        then (if Sockets.contains id sockets then id else 0)
        else Listeners.find other t sockets)
unfolding Listeners.find Listeners.bind
find-bind port other id t sockets = ground (arith, lookup-insert port other id t)

-- A port is bound just where `find` gives a socket.
pub contains_iff_find :
    (port : ℕ) (t : Listeners.ListenerTable) (sockets : SocketTable)
    → (Listeners.contains port t sockets ≡ true) ↔ (Listeners.find port t sockets ≢ 0)
unfolding Listeners.find Listeners.contains Sockets.contains
contains_iff_find port t sockets = ground arith

-- After the destruction of a connection nothing is registered under its two addresses, and the
-- socket that was is gone from the socket table.
pub find-destroy_connection :
    (remote_addr local_addr : Ipv4Address) (t : ConnectionTable) (sockets : SocketTable)
    → let d = Connections.destroy_connection remote_addr local_addr t sockets in
      let id = Connections.find remote_addr local_addr t sockets in
      (Connections.find remote_addr local_addr d.connections d.sockets ≡ 0)
      × (Sockets.contains id d.sockets ≡ false)
unfolding Connections.find Connections.destroy_connection Connections.erase Sockets.destroy_socket
    Sockets.contains
find-destroy_connection remote_addr local_addr t sockets =
    let k = key remote_addr local_addr in
    let id = Connections.find remote_addr local_addr t sockets in
    ground (arith, lookup-erase k k t, lookup-erase id id sockets.sockets)
