-- ===== src/Stack/Invariant/Calls.antt =====
-- Allocating ports, registering and closing keep the blocks valid.
use tiny_cp.Base.{
  ℕ, zero, suc, ◌<◌, ◌^◌, Bool, not, ◌||◌, ◌==◌, Option-cases, inl, inr, arith, Bool-cases,
  if◌then◌else◌,
}
use tiny_cp.Address.{Ipv4Address, IsEndpoint}
use tiny_cp.Tcb.{Tcb, TcpState, set_state, close}
use tiny_cp.Tcb.Invariant as Block
use tiny_cp.Tun.{get_usable_ip_address}
use tiny_cp.Tables.Sockets
use tiny_cp.Tables.Sockets.{SocketTable}
use tiny_cp.Tables.Connections
use tiny_cp.Stack.State.{Host, TcpStack, get_tcb}
use tiny_cp.Stack.Output.{fin_ack}
use tiny_cp.Stack.Send.{process_tcb}
use tiny_cp.Stack.Ports.{Candidate, next_candidate, try_ports, allocate_ephemeral_port}
use tiny_cp.Stack.Close.{
  send_fin, drop_connection, close_in, close_connection, complete_address, register_connection,
}
use tiny_cp.Stack.Invariant.{
  IsValid, Valid, create_socket-Valid, store-Valid, find_socket-IsValid, get_tcb-IsValid,
  put_tcb-IsValid, destroy_connection-IsValid,
}
use tiny_cp.Stack.Invariant.Segment.{reply-IsValid}
use tiny_cp.Stack.Invariant.Sending.{IsFlushed, process_tcb-IsFlushed}

-- A candidate and the counter are ports.
ArePorts : Candidate → Type 0
ArePorts c = (c.port < 2 ^ 16) × (c.next_port < 2 ^ 16)

next_candidate-ArePorts : (next : ℕ) → ArePorts (next_candidate next)
unfolding ArePorts next_candidate
next_candidate-ArePorts next = ground arith

try_ports-ArePorts :
    (rounds : ℕ) (is_bound : ℕ → Bool) (next : ℕ)
    → next < 2 ^ 16
    → ArePorts (try_ports rounds is_bound next)
unfolding ArePorts try_ports
try_ports-ArePorts zero is_bound next h = omega arith
try_ports-ArePorts (suc rounds) is_bound next h =
    let (port_in, next_in) = next_candidate-ArePorts next in
    let rest = try_ports-ArePorts rounds is_bound (next_candidate next).next_port next_in in
    elim (Bool-cases (is_bound (next_candidate next).port)) [
      | inl bound ↦ rw bound rest
      | inr new ↦ rw new (port_in, next_in)
    ]

pub allocate_ephemeral_port-lt :
    {s : TcpStack} → IsValid s → (allocate_ephemeral_port s).port < 2 ^ 16
unfolding allocate_ephemeral_port ArePorts
allocate_ephemeral_port-lt {s} v = (try_ports-ArePorts 16384 _ s.next_port v.next_port_in).0

pub allocate_ephemeral_port-IsValid :
    {s : TcpStack} → IsValid s → IsValid (allocate_ephemeral_port s).stack
unfolding allocate_ephemeral_port ArePorts
allocate_ephemeral_port-IsValid {s} v = record {
  blocks = v.blocks;
  next_port_in = (try_ports-ArePorts 16384 _ s.next_port v.next_port_in).1;
}

-- The address that the stack takes where the caller gives none.
pub get_usable_ip_address-lt : (host : Host) → (get_usable_ip_address host.os).address < 2 ^ 32
unfolding get_usable_ip_address
get_usable_ip_address-lt host = elim (Option-cases host.os.interface_address) [
  | inl absent ↦ rw absent (omega arith)
  | inr (ip, there) ↦ rw there (omega arith)
]

module _ (host : Host) {s : TcpStack} (v : IsValid s) where
  pub complete_address-IsValid :
      {addr : Ipv4Address}
      → IsEndpoint addr
      → IsEndpoint (complete_address host addr s).addr
        × IsValid (complete_address host addr s).stack
  unfolding complete_address
  complete_address-IsValid {addr} a =
      let usable_in = get_usable_ip_address-lt host in
      let port_in = allocate_ephemeral_port-lt v in
      let after = allocate_ephemeral_port-IsValid v in
      let address_in : (if addr.address == 0
            then (get_usable_ip_address host.os).address
            else addr.address)
          < 2 ^ 32 =
        ground (arith, a.address_in) in
      elim (Bool-cases (addr.port == 0)) [
        | inl any ↦ rw any (record { address_in = address_in; port_in = port_in }, after)
        | inr own ↦ rw own (record { address_in = address_in; port_in = a.port_in }, v)
      ]

claim-Valid :
    {local_addr remote_addr : Ipv4Address} (id : ℕ) (t : SocketTable)
    → IsEndpoint local_addr
    → IsEndpoint remote_addr
    → Valid t
    → Valid (Connections.claim local_addr remote_addr id t).table
unfolding Connections.claim
claim-Valid {local_addr} {remote_addr} id t a b all =
    elim (Bool-cases (id == 0 || not (Sockets.contains id t))) [
      | inl new ↦ rw new (create_socket-Valid TcpState.closed local_addr remote_addr t a b all)
      | inr old ↦ elim (Option-cases (Sockets.find_socket id t)) [
        | inl absent ↦ rw (Connections.claim, old, absent) all
        | inr (tcb, found) ↦
            let w = find_socket-IsValid id t all found in
            let moved = record tcb { src_address = local_addr; dst_address = remote_addr } in
            rw (Connections.claim, old, found) (store-Valid id moved t (omega (arith, a, b, w)) all)
      ]
    ]

-- Closing.
module _ (host : Host) (id : ℕ) {s : TcpStack} (v : IsValid s) {tcb : Tcb}
    (w : Block.IsValid tcb) where
  send_fin-IsValid : (state : TcpState) → IsValid (send_fin host id state s tcb).stack
  unfolding send_fin IsFlushed set_state
  send_fin-IsValid state =
      let (flushed_valid, after) = process_tcb-IsFlushed host id v w in
      let flushed = process_tcb host id tcb s in
      let closing = set_state state (close flushed.tcb) in
      let closing_valid = Block.set_state-IsValid state (Block.close-IsValid flushed_valid) in
      put_tcb-IsValid (reply-IsValid host closing fin_ack closing.snd.nxt closing.rcv.nxt after) id
        _ (omega (arith, closing_valid))

  drop_connection-IsValid : IsValid (drop_connection id s tcb).stack
  unfolding drop_connection
  drop_connection-IsValid =
      destroy_connection-IsValid (put_tcb-IsValid v id (close tcb) (Block.close-IsValid w)) _ _

  close_in-IsValid : (state : TcpState) → IsValid (close_in host id state s tcb).stack
  unfolding close_in
  close_in-IsValid TcpState.established = send_fin-IsValid TcpState.fin_wait_1
  close_in-IsValid TcpState.close_wait = send_fin-IsValid TcpState.last_ack
  close_in-IsValid TcpState.closed = drop_connection-IsValid
  close_in-IsValid TcpState.listen = drop_connection-IsValid
  close_in-IsValid TcpState.syn_sent = drop_connection-IsValid
  close_in-IsValid TcpState.syn_received = drop_connection-IsValid
  close_in-IsValid TcpState.fin_wait_1 = drop_connection-IsValid
  close_in-IsValid TcpState.fin_wait_2 = drop_connection-IsValid
  close_in-IsValid TcpState.closing = drop_connection-IsValid
  close_in-IsValid TcpState.last_ack = drop_connection-IsValid
  close_in-IsValid TcpState.time_wait = drop_connection-IsValid

module _ (host : Host) (id : ℕ) {s : TcpStack} (v : IsValid s) where
  pub close_connection-IsValid : IsValid (close_connection host id s).stack
  unfolding close_connection
  close_connection-IsValid = elim (Option-cases (get_tcb id s)) [
    | inl absent ↦ rw (close_connection, absent) v
    | inr (tcb, found) ↦
        rw (close_connection, found)
          (close_in-IsValid host id v (get_tcb-IsValid v id found) tcb.current_state)
  ]

  pub register_connection-IsValid :
      {local_addr remote_addr : Ipv4Address}
      → IsEndpoint local_addr
      → IsEndpoint remote_addr
      → IsValid (register_connection host local_addr remote_addr id s).stack
  unfolding register_connection Connections.register_connection
  register_connection-IsValid a b =
      let (own_in, after) = complete_address-IsValid host v a in
      record { blocks = claim-Valid id _ own_in b after.blocks; next_port_in = after.next_port_in }
