-- ===== src/Tables/Sockets.antt =====
-- SocketTable.h and SocketTable.cpp: the owner of the control blocks, by socket id.
use tiny_cp.Base.{
  ℕ, ◌+◌, Bool, true, false, Option, none, some, [], u64, ◌==◌, if◌then◌else◌, length,
}
use tiny_cp.Base.Map.{Map, nat_eq, lookup, insert, erase}
use tiny_cp.Address.{Ipv4Address}
use tiny_cp.Tcb.{Tcb, TcpState, new_tcb}

pub record SocketTable : Type 0 where
  pub next_id : ℕ
  pub sockets : Map ℕ Tcb

abbrev pub empty_table : SocketTable
empty_table = record { next_id = 1; sockets = [] }

-- The table with the new block, beside its id.
abbrev pub Created : Type 0
Created = record { id : ℕ; table : SocketTable }

unfoldable pub create_socket : TcpState → Ipv4Address → Ipv4Address → SocketTable → Created
create_socket state src dst t =
    let id = t.next_id in
    let tcb = new_tcb state src dst in
    record {
      id = id;
      table = record {
        next_id = u64 (id + 1);
        sockets = insert id (record tcb { id = id }) t.sockets;
      };
    }

unfoldable pub find_socket : ℕ → SocketTable → Option Tcb
find_socket id t = if id == 0 then none else lookup id t.sockets

abbrev is_some : Option Tcb → Bool
is_some none = false
is_some (some _) = true

unfoldable pub contains : ℕ → SocketTable → Bool
unfolding find_socket
contains id t = if id == 0 then false else is_some (lookup id t.sockets)

unfoldable pub size : SocketTable → ℕ
size t = length t.sockets

-- The answer of `erase(id) > 0` beside the new table.
abbrev pub Destroyed : Type 0
Destroyed = record { found : Bool; table : SocketTable }

unfoldable pub destroy_socket : ℕ → SocketTable → Destroyed
destroy_socket id t = if id == 0 then record { found = false; table = t } else record {
  found = is_some (lookup id t.sockets);
  table = record t { sockets = erase id t.sockets };
}

-- A write through the pointer that `find_socket` gave.
unfoldable pub store : ℕ → Tcb → SocketTable → SocketTable
store id tcb t = record t { sockets = insert id tcb t.sockets }
