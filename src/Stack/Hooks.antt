-- ===== src/Stack/Hooks.antt =====
-- TcpStack.h and TcpStack.cpp: the hooks of a build with `TCP_STACK_TESTING`.
use tiny_cp.Base.{
  ℕ, ◌≡◌, refl, Bool, true, false, List, [], ◌∷◌, none, if◌then◌else◌, Bool-cases, inl, inr,
}
use tiny_cp.Base.Map.{lookup, lookup-erase}
use tiny_cp.Address.{Ipv4Address}
use tiny_cp.Tcb.{max_ipv4_packet_size}
use tiny_cp.Tcp.Packet.{TcpPacket}
use tiny_cp.Tcp.View.{TcpPacketView}
use tiny_cp.Ipv4.Packet as IpPacket
use tiny_cp.Tables.Connections
use tiny_cp.Tables.Connections.{key, connection_key_eq, key_eq, key_eq_iff}
use tiny_cp.Stack.State.{Host, Net, TcpStack, get_tcb, find_connections_tcb}
use tiny_cp.Stack.Output.{Written, write_packet, ip_header, segment_bytes}
use tiny_cp.Stack.Handlers.{Outcome}
use tiny_cp.Stack.Input.{process_incoming_packet, route, unrouted}

-- A packet with its two addresses, as a hook is given it.
pub record Outbound : Type 0 where
  pub src : Ipv4Address
  pub dst : Ipv4Address
  pub packet : TcpPacket

-- Whether the interceptor is set, and the drop predicate; none drops nothing.
pub record Hooks : Type 0 where
  pub intercepts : Bool
  pub drops : Outbound → Bool

abbrev pub no_hooks : Hooks
no_hooks = record { intercepts = false; drops = λ _. false }

unfoldable pub set_outbound_interceptor : Hooks → Hooks
set_outbound_interceptor h = record h { intercepts = true }

unfoldable pub set_packet_drop_predicate : (Outbound → Bool) → Hooks → Hooks
set_packet_drop_predicate drops h = record h { drops = drops }

-- `write_packet_` of such a build, beside what the interceptor was given.
unfoldable pub hooked_write_packet :
    Hooks → Host → Outbound → Net → record { written : Written; seen : List Outbound }
hooked_write_packet hooks host o net =
    let lost : Written = record {
      size =
          (IpPacket.write
            (record {
              header = ip_header o.src o.dst;
              payload = segment_bytes host o.src o.dst o.packet;
            })
            max_ipv4_packet_size host.stack_memory).written;
      net = net;
    } in
    record {
      written = if hooks.drops o then lost else write_packet host o.src o.dst o.packet net;
      seen = if hooks.intercepts then o ∷ [] else [];
    }

unfoldable pub inject_packet : Host → List ℕ → TcpStack → Outcome
inject_packet host raw_bytes s = process_incoming_packet host raw_bytes s

-- Only the entry of the connection table goes: the socket and its block stay.
unfoldable pub simulate_node_crash : Ipv4Address → Ipv4Address → TcpStack → TcpStack
simulate_node_crash remote_addr local_addr s = record s {
  connections = Connections.erase remote_addr local_addr s.connections;
}

erased :
    (remote_addr local_addr : Ipv4Address) (s : TcpStack)
    → lookup (key remote_addr local_addr) (Connections.erase remote_addr local_addr s.connections)
      ≡ none
unfolding Connections.erase
erased remote_addr local_addr s =
    let k = key remote_addr local_addr in
    let same : key_eq k k ≡ true = (key_eq_iff k k).1 refl in
    rw (lookup-erase k k s.connections, same) refl

find_of_crashed :
    (remote_addr local_addr : Ipv4Address) (s : TcpStack)
    → find_connections_tcb remote_addr local_addr (simulate_node_crash remote_addr local_addr s) ≡ 0
unfolding find_connections_tcb simulate_node_crash Connections.find
find_of_crashed remote_addr local_addr s =
    rw (Connections.find, erased remote_addr local_addr s) refl

-- After the crash a segment of the connection is treated as one of no connection, and every block
-- is as it was.
pub route-simulate_node_crash :
    (host : Host) (remote_addr local_addr : Ipv4Address) (packet : TcpPacketView) (s : TcpStack)
    → (route host remote_addr local_addr packet (simulate_node_crash remote_addr local_addr s)
        ≡ unrouted host remote_addr local_addr packet
            (simulate_node_crash remote_addr local_addr s))
      × ((id : ℕ) → get_tcb id (simulate_node_crash remote_addr local_addr s) ≡ get_tcb id s)
unfolding route get_tcb simulate_node_crash
route-simulate_node_crash host remote_addr local_addr packet s =
    (rw (find_of_crashed remote_addr local_addr s) refl, λ id. refl)

-- What the predicate drops does not leave the stack; the rest goes the way of `write_packet_`.
pub hooked_write_packet_lem :
    (hooks : Hooks) (host : Host) (o : Outbound) (net : Net)
    → (hooked_write_packet hooks host o net).written.net
      ≡ (if hooks.drops o then net else (write_packet host o.src o.dst o.packet net).net)
unfolding hooked_write_packet
hooked_write_packet_lem hooks host o net = elim (Bool-cases (hooks.drops o)) [
  | inl lost ↦ rw lost refl
  | inr kept ↦ rw kept refl
]
