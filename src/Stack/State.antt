-- ===== src/Stack/State.antt =====
-- The fields of `TcpStack`, and the small methods over its tables.
use tiny_cp.Base.{ℕ, ◌+◌, ◌||◌, not, Option, List, [], ◌∷◌, ◌++◌, ◌==◌, if◌then◌else◌, u32}
use tiny_cp.Base.Memory.{Memory}
use tiny_cp.Address.{Ipv4Address}
use tiny_cp.Tcb.{Tcb}
use tiny_cp.Tun.{Os, TunDevice}
use tiny_cp.Tables.Sockets
use tiny_cp.Tables.Sockets.{SocketTable}
use tiny_cp.Tables.Listeners
use tiny_cp.Tables.Listeners.{ListenerTable}
use tiny_cp.Tables.Connections
use tiny_cp.Tables.Connections.{ConnectionTable}

-- What the stack takes from outside: the operating system, its interface, the `n`-th number of the
-- random generator, and what the uninitialised buffers on the call stack hold.
pub record Host : Type 0 where
  pub os : Os
  pub tun_device : TunDevice
  pub random : ℕ → ℕ
  pub stack_memory : Memory

-- Where packets go: the queue that the daemon reads, and the packets with which `tun_write` was
-- called, also where the device is not open or the write fails.
pub record Net : Type 0 where
  pub loopback_packet_queue : List (List ℕ)
  pub tun_out : List (List ℕ)

-- `clock` is what `system_clock::now()` gives, `draws` counts the random numbers taken, and
-- `next_port` is the static counter of `allocate_ephemeral_port`.
pub record TcpStack : Type 0 where
  pub sockets : SocketTable
  pub listeners : ListenerTable
  pub connections : ConnectionTable
  pub dirty_socket_ids : List ℕ
  pub net : Net
  pub next_port : ℕ
  pub clock : ℕ
  pub draws : ℕ

-- The stack as constructed.
abbrev pub new_stack : TcpStack
new_stack = record {
  sockets = Sockets.empty_table;
  listeners = [];
  connections = [];
  dirty_socket_ids = [];
  net = record { loopback_packet_queue = []; tun_out = [] };
  next_port = 49152;
  clock = 0;
  draws = 0;
}

-- A method's `size_t`, with the stack that it leaves.
abbrev pub Sized : Type 0
Sized = record { size : ℕ; stack : TcpStack }

unfoldable pub get_tcb : ℕ → TcpStack → Option Tcb
get_tcb id s = Sockets.find_socket id s.sockets

-- A write through the pointer that `get_tcb` gave.
unfoldable pub put_tcb : ℕ → Tcb → TcpStack → TcpStack
put_tcb id tcb s = record s { sockets = Sockets.store id tcb s.sockets }

unfoldable pub add_dirty_tcb : ℕ → TcpStack → TcpStack
add_dirty_tcb id s =
    if id == 0 || not (Sockets.contains id s.sockets)
    then s
    else record s { dirty_socket_ids = s.dirty_socket_ids ++ (id ∷ []) }

unfoldable pub find_connections_tcb : Ipv4Address → Ipv4Address → TcpStack → ℕ
find_connections_tcb src dst s = Connections.find src dst s.connections s.sockets

abbrev pub WithId : Type 0
WithId = record { id : ℕ; stack : TcpStack }

unfoldable pub bind_socket : Ipv4Address → TcpStack → WithId
bind_socket addr s =
    let b = Listeners.bind_new addr s.listeners s.sockets in
    record { id = b.id; stack = record s { listeners = b.listeners; sockets = b.sockets } }

unfoldable pub destroy_connection : Ipv4Address → Ipv4Address → TcpStack → TcpStack
destroy_connection remote_addr local_addr s =
    let d = Connections.destroy_connection remote_addr local_addr s.connections s.sockets in
    record s { connections = d.connections; sockets = d.sockets }

-- `generate_random_uint32()`
abbrev pub Drawn : Type 0
Drawn = record { number : ℕ; stack : TcpStack }

unfoldable pub generate_random_uint32 : Host → TcpStack → Drawn
generate_random_uint32 host s = record {
  number = u32 (host.random s.draws);
  stack = record s { draws = s.draws + 1 };
}
