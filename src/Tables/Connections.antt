-- ===== src/Tables/Connections.antt =====
-- ConnectionTable.h and ConnectionTable.cpp: the pair of the remote and the local address of a
-- connection, to its socket id. The hash of a key decides no result.
use mathlib.Core.Logic.{◌↔◌}
use tiny_cp.Base.{
  ℕ, Bool, true, false, ◌&&◌, ◌||◌, not, ◌≡◌, arith, none, some, if◌then◌else◌, ◌==◌,
}
use tiny_cp.Base.Map.{Eq, Map, lookup, insert}
use tiny_cp.Base.Map
use tiny_cp.Address.{Ipv4Address, address_eq, address_eq_iff, ipv4_address_eq}
use tiny_cp.Tcb.{TcpState}
use tiny_cp.Tables.Sockets
use tiny_cp.Tables.Sockets.{SocketTable}

-- `src_address` is the remote side, `dst_address` the local one.
pub record ConnectionKey : Type 0 where
  pub src_address : Ipv4Address
  pub dst_address : Ipv4Address

abbrev pub key_eq : ConnectionKey → ConnectionKey → Bool
key_eq a b = address_eq a.src_address b.src_address && address_eq a.dst_address b.dst_address

pub key_eq_iff : (a b : ConnectionKey) → (key_eq a b ≡ true) ↔ (a ≡ b)
key_eq_iff a b =
    ground (
      arith,
      address_eq_iff a.src_address b.src_address,
      address_eq_iff a.dst_address b.dst_address,
    )

instance abbrev pub connection_key_eq : Eq ConnectionKey
connection_key_eq = record { beq = key_eq; beq_iff = key_eq_iff }

abbrev pub ConnectionTable : Type 0
ConnectionTable = Map ConnectionKey ℕ

abbrev pub key : Ipv4Address → Ipv4Address → ConnectionKey
key remote_addr local_addr = record { src_address = remote_addr; dst_address = local_addr }

unfoldable pub insert_id : Ipv4Address → Ipv4Address → ℕ → ConnectionTable → ConnectionTable
insert_id remote_addr local_addr socket_id t = insert (key remote_addr local_addr) socket_id t

abbrev pub Registered : Type 0
Registered = record { id : ℕ; connections : ConnectionTable; sockets : SocketTable }

-- The socket that a registration uses: a new one, or the old one with its addresses set.
unfoldable pub claim : Ipv4Address → Ipv4Address → ℕ → SocketTable → Sockets.Created
claim local_addr remote_addr socket_id sockets =
    if socket_id == 0 || not (Sockets.contains socket_id sockets)
    then Sockets.create_socket TcpState.closed local_addr remote_addr sockets
    else record {
      id = socket_id;
      table = elim (Sockets.find_socket socket_id sockets) [
        | none ↦ sockets
        | some tcb ↦
            Sockets.store socket_id
              (record tcb { src_address = local_addr; dst_address = remote_addr }) sockets
      ];
    }

unfoldable pub register_connection :
    Ipv4Address → Ipv4Address → ℕ → ConnectionTable → SocketTable → Registered
register_connection local_addr remote_addr socket_id t sockets =
    let made = claim local_addr remote_addr socket_id sockets in
    record {
      id = made.id;
      connections = insert (key remote_addr local_addr) made.id t;
      sockets = made.table;
    }

-- 0 where no live socket is registered.
unfoldable pub find : Ipv4Address → Ipv4Address → ConnectionTable → SocketTable → ℕ
find remote_addr local_addr t sockets = elim (lookup (key remote_addr local_addr) t) [
  | none ↦ 0
  | some socket_id ↦ if Sockets.contains socket_id sockets then socket_id else 0
]

unfoldable pub erase : Ipv4Address → Ipv4Address → ConnectionTable → ConnectionTable
erase remote_addr local_addr t = Map.erase (key remote_addr local_addr) t

abbrev pub Destroyed : Type 0
Destroyed = record { found : Bool; connections : ConnectionTable; sockets : SocketTable }

unfoldable pub destroy_connection :
    Ipv4Address → Ipv4Address → ConnectionTable → SocketTable → Destroyed
destroy_connection remote_addr local_addr t sockets = elim (lookup (key remote_addr local_addr) t) [
  | none ↦ record { found = false; connections = t; sockets = sockets }
  | some socket_id ↦
      let gone = Sockets.destroy_socket socket_id sockets in
      record {
        found = gone.found;
        connections = erase remote_addr local_addr t;
        sockets = gone.table;
      }
]
