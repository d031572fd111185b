-- ===== src/Stack/Invariant.antt =====
-- What holds of the stack between two steps, whatever its peers send.
pub mod Segment
pub mod Opening
pub mod Receiving
pub mod Finishing
pub mod Sending
pub mod Arriving
pub mod Calls
pub mod Round
use tiny_cp.Base.{
  ℕ, ◌<◌, ◌^◌, ◌≡◌, ◌≢◌, refl, Option, Option-cases, inl, inr, none, some, arith, Bool-cases, ◌||◌,
  ◌==◌, not, u64, if◌then◌else◌,
}
use tiny_cp.Base.Map.{
  nat_eq, lookup, AllValues, AllValues-insert, AllValues-erase, AllValues-lookup,
}
use tiny_cp.Address.{Ipv4Address, IsEndpoint, no_address-IsEndpoint}
use tiny_cp.Tcb.{Tcb, TcpState, new_tcb}
use tiny_cp.Tcb.Invariant as Block
use tiny_cp.Tables.Sockets
use tiny_cp.Tables.Sockets.{SocketTable}
use tiny_cp.Tables.Listeners
use tiny_cp.Tables.Connections
use tiny_cp.Tables.Connections.{key, connection_key_eq}
use tiny_cp.Stack.State.{
  Host, Net, TcpStack, new_stack, get_tcb, put_tcb, add_dirty_tcb, bind_socket, destroy_connection,
}

-- Every control block is valid.
unfoldable pub Valid : SocketTable → Type 0
Valid t = AllValues Block.IsValid t.sockets

-- The blocks of the stack are valid, and the counter of the ports is a port.
pub record IsValid (s : TcpStack) : Type 0 where
  pub blocks : Valid s.sockets
  pub next_port_in : s.next_port < 2 ^ 16

-- The tables.
pub create_socket-Valid :
    (state : TcpState) (src dst : Ipv4Address) (t : SocketTable)
    → IsEndpoint src
    → IsEndpoint dst
    → Valid t
    → Valid (Sockets.create_socket state src dst t).table
unfolding Valid Sockets.create_socket
create_socket-Valid state src dst t v w all =
    let new = Block.new_tcb-IsValid state v w in
    AllValues-insert Block.IsValid t.next_id (record (new_tcb state src dst) { id = t.next_id })
      t.sockets (ground arith) all

pub destroy_socket-Valid :
    (id : ℕ) (t : SocketTable) → Valid t → Valid (Sockets.destroy_socket id t).table
unfolding Valid Sockets.destroy_socket
destroy_socket-Valid id t all = elim (Bool-cases (id == 0)) [
  | inl zero_id ↦ rw zero_id all
  | inr some_id ↦ rw some_id (AllValues-erase Block.IsValid id t.sockets all)
]

pub store-Valid :
    (id : ℕ) (tcb : Tcb) (t : SocketTable)
    → Block.IsValid tcb
    → Valid t
    → Valid (Sockets.store id tcb t)
unfolding Valid Sockets.store
store-Valid id tcb t v all = AllValues-insert Block.IsValid id tcb t.sockets v all

pub find_socket-IsValid :
    (id : ℕ) (t : SocketTable) {tcb : Tcb}
    → Valid t
    → Sockets.find_socket id t ≡ some tcb
    → Block.IsValid tcb
unfolding Valid Sockets.find_socket
find_socket-IsValid id t all found = elim (Bool-cases (id == 0)) [
  | inl zero_id ↦ ground (arith, zero_id, found)
  | inr some_id ↦ AllValues-lookup Block.IsValid id t.sockets all (rw some_id at found)
]

pub destroy_connection-Valid :
    (remote_addr local_addr : Ipv4Address) (c : Connections.ConnectionTable) (t : SocketTable)
    → Valid t
    → Valid (Connections.destroy_connection remote_addr local_addr c t).sockets
unfolding Connections.destroy_connection
destroy_connection-Valid remote_addr local_addr c t all =
    elim (Option-cases (lookup (key remote_addr local_addr) c)) [
      | inl absent ↦ rw (Connections.destroy_connection, absent) all
      | inr (id, there) ↦ rw (Connections.destroy_connection, there) (destroy_socket-Valid id t all)
    ]

module _ {s : TcpStack} (v : IsValid s) where
  pub get_tcb-IsValid : (id : ℕ) {tcb : Tcb} → get_tcb id s ≡ some tcb → Block.IsValid tcb
  unfolding get_tcb
  get_tcb-IsValid id found = find_socket-IsValid id s.sockets v.blocks found

  pub put_tcb-IsValid : (id : ℕ) (tcb : Tcb) → Block.IsValid tcb → IsValid (put_tcb id tcb s)
  unfolding put_tcb
  put_tcb-IsValid id tcb w = record {
    blocks = store-Valid id tcb s.sockets w v.blocks;
    next_port_in = v.next_port_in;
  }

  pub destroy_connection-IsValid : (a b : Ipv4Address) → IsValid (destroy_connection a b s)
  unfolding destroy_connection
  destroy_connection-IsValid a b = record {
    blocks = destroy_connection-Valid a b s.connections s.sockets v.blocks;
    next_port_in = v.next_port_in;
  }

  pub add_dirty_tcb-IsValid : (id : ℕ) → IsValid (add_dirty_tcb id s)
  unfolding add_dirty_tcb
  add_dirty_tcb-IsValid id = elim (Bool-cases (id == 0 || not (Sockets.contains id s.sockets))) [
    | inl stop ↦ rw stop v
    | inr mark ↦ rw mark (record { blocks = v.blocks; next_port_in = v.next_port_in })
  ]

  pub bind_socket-IsValid :
      (addr : Ipv4Address) → IsEndpoint addr → IsValid (bind_socket addr s).stack
  unfolding bind_socket Listeners.bind_new
  bind_socket-IsValid addr a = record {
    blocks = create_socket-Valid TcpState.closed addr _ s.sockets a no_address-IsEndpoint v.blocks;
    next_port_in = v.next_port_in;
  }

  -- Whatever was sent or is waiting, the blocks are as they were.
  pub net-IsValid : (net : Net) → IsValid (record s { net = net })
  net-IsValid net = record { blocks = v.blocks; next_port_in = v.next_port_in }

pub new_stack-IsValid : IsValid new_stack
unfolding Valid
new_stack-IsValid = record { blocks = tt; next_port_in = omega arith }
