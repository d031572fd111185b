-- ===== src/Tables/Listeners.antt =====
-- ListenerTable.h and ListenerTable.cpp: listening ports to socket ids. The table refers to the
-- socket table, which the methods take and, where they change it, return.
use tiny_cp.Base.{ℕ, Bool, false, none, some, if◌then◌else◌}
use tiny_cp.Base.Map.{Map, nat_eq, lookup, insert, erase}
use tiny_cp.Address.{Ipv4Address, no_address}
use tiny_cp.Tcb.{TcpState}
use tiny_cp.Tables.Sockets
use tiny_cp.Tables.Sockets.{SocketTable}

abbrev pub ListenerTable : Type 0
ListenerTable = Map ℕ ℕ

unfoldable pub bind : ℕ → ℕ → ListenerTable → ListenerTable
bind port socket_id t = insert port socket_id t

abbrev pub Bound : Type 0
Bound = record { id : ℕ; listeners : ListenerTable; sockets : SocketTable }

unfoldable pub bind_new : Ipv4Address → ListenerTable → SocketTable → Bound
bind_new addr t sockets =
    let made = Sockets.create_socket TcpState.closed addr no_address sockets in
    record { id = made.id; listeners = insert addr.port made.id t; sockets = made.table }

-- 0 where no live socket is bound.
unfoldable pub find : ℕ → ListenerTable → SocketTable → ℕ
find port t sockets = elim (lookup port t) [
  | none ↦ 0
  | some socket_id ↦ if Sockets.contains socket_id sockets then socket_id else 0
]

unfoldable pub contains : ℕ → ListenerTable → SocketTable → Bool
contains port t sockets = elim (lookup port t) [
  | none ↦ false
  | some socket_id ↦ Sockets.contains socket_id sockets
]

abbrev pub Unbound : Type 0
Unbound = record { found : Bool; listeners : ListenerTable; sockets : SocketTable }

unfoldable pub unbind : ℕ → ListenerTable → SocketTable → Unbound
unbind port t sockets = elim (lookup port t) [
  | none ↦ record { found = false; listeners = t; sockets = sockets }
  | some socket_id ↦
      let gone = Sockets.destroy_socket socket_id sockets in
      record { found = gone.found; listeners = erase port t; sockets = gone.table }
]
