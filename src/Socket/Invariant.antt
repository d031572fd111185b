-- ===== src/Socket/Invariant.antt =====
-- Every method of a socket keeps the stack valid.
use tiny_cp.Base.{ℕ, ◌==◌, Option-cases, Bool-cases, inl, inr, arith, List, [], ◌∷◌}
use tiny_cp.Address.{Ipv4Address, IsEndpoint, no_address-IsEndpoint}
use tiny_cp.Buffer
use tiny_cp.Buffer.{Counted, Bytes}
use tiny_cp.Buffer.Invariant as Ring
use tiny_cp.Tcb.{Tcb, TcpState, set_state, max_ipv4_packet_size}
use tiny_cp.Tcb.Invariant as Block
use tiny_cp.Stack.State.{Host, TcpStack, get_tcb, bind_socket, generate_random_uint32}
use tiny_cp.Stack.Close.{complete_address, register_connection}
use tiny_cp.Stack.Invariant.{
  IsValid, get_tcb-IsValid, put_tcb-IsValid, add_dirty_tcb-IsValid, bind_socket-IsValid,
}
use tiny_cp.Stack.Invariant.Calls.{
  complete_address-IsValid, register_connection-IsValid, close_connection-IsValid,
}
use tiny_cp.Socket.{
  TcpSocket, WithSocket, number_block, bind, is_closed, is_listen, listen, opening, queue_syn,
  own_address, start_connect, take_child, accept, sent, send, received, recv, close, left_by,
  after_accept, after_send, after_recv,
}

module _ (host : Host) (id : ℕ) {tcb : Tcb} (w : Block.IsValid tcb) {s : TcpStack}
    (v : IsValid s) where
  number_block-IsValid : IsValid (number_block host id tcb s)
  unfolding number_block generate_random_uint32
  number_block-IsValid =
      let drawn = generate_random_uint32 host s in
      let after : IsValid drawn.stack = record {
        blocks = v.blocks;
        next_port_in = v.next_port_in;
      } in
      put_tcb-IsValid after id _ (omega (arith, w))

  queue_syn-IsValid : IsValid (queue_syn host id tcb s)
  unfolding queue_syn generate_random_uint32 opening set_state
  queue_syn-IsValid =
      let drawn = generate_random_uint32 host s in
      let after : IsValid drawn.stack = record {
        blocks = v.blocks;
        next_port_in = v.next_port_in;
      } in
      add_dirty_tcb-IsValid (put_tcb-IsValid after id (opening drawn.number tcb) (omega (arith, w)))
        id

module _ (host : Host) {s : TcpStack} (v : IsValid s) where
  pub bind-IsValid : {addr : Ipv4Address} → IsEndpoint addr → IsValid (bind host addr s).stack
  unfolding bind
  bind-IsValid {addr} a =
      let (own_in, filled) = complete_address-IsValid host v a in
      let own = complete_address host addr s in
      let bound = bind_socket own.addr own.stack in
      let bound_valid = bind_socket-IsValid filled own.addr own_in in
      elim (Option-cases (get_tcb bound.id bound.stack)) [
        | inl absent ↦ rw (bind, absent) bound_valid
        | inr (tcb, found) ↦
            rw (bind, found)
              (number_block-IsValid host bound.id (get_tcb-IsValid bound_valid bound.id found)
                bound_valid)
      ]

  own_address-IsEndpoint : (id : ℕ) → IsEndpoint (own_address (get_tcb id s))
  unfolding own_address
  own_address-IsEndpoint id = elim (Option-cases (get_tcb id s)) [
    | inl absent ↦ rw absent no_address-IsEndpoint
    | inr (tcb, found) ↦
        let w = get_tcb-IsValid v id found in
        rw found (record { address_in = w.src_in.address_in; port_in = w.src_in.port_in })
  ]

  pub start_connect-IsValid :
      {addr : Ipv4Address} (k : TcpSocket)
      → IsEndpoint addr
      → IsValid (start_connect host addr k s).stack
  unfolding start_connect
  start_connect-IsValid {addr} k a =
      let local_addr = own_address (get_tcb k.socket_id s) in
      let made = register_connection host local_addr addr k.socket_id s in
      let made_valid =
        register_connection-IsValid host k.socket_id v (own_address-IsEndpoint k.socket_id) a in
      elim (Option-cases (get_tcb made.id made.stack)) [
        | inl absent ↦ rw (start_connect, absent) made_valid
        | inr (tcb, found) ↦
            rw (start_connect, found)
              (queue_syn-IsValid host made.id (get_tcb-IsValid made_valid made.id found) made_valid)
      ]

  pub close-IsValid : (k : TcpSocket) → IsValid (close host k s)
  unfolding close
  close-IsValid k = elim (Bool-cases (k.socket_id == 0)) [
    | inl unbound ↦ rw unbound v
    | inr bound ↦ rw bound (close_connection-IsValid host k.socket_id v)
  ]

module _ {s : TcpStack} (v : IsValid s) (k : TcpSocket) where
  pub listen-IsValid : IsValid (listen k s)
  unfolding listen
  listen-IsValid = elim (Option-cases (get_tcb k.socket_id s)) [
    | inl absent ↦ rw (listen, absent) v
    | inr (tcb, found) ↦ elim (Bool-cases (is_closed tcb.current_state)) [
      | inl is ↦
          rw (listen, found, is)
            (put_tcb-IsValid v k.socket_id _
              (Block.set_state-IsValid TcpState.listen (get_tcb-IsValid v k.socket_id found)))
      | inr other ↦ rw (listen, found, other) v
    ]
  ]

  take_child-IsValid :
      {tcb : Tcb} (q : List ℕ)
      → Block.IsValid tcb
      → IsValid (left_by (λ (o : WithSocket). o.stack) s (take_child k.socket_id tcb q s))
  unfolding take_child left_by
  take_child-IsValid [] w = v
  take_child-IsValid {tcb} (child_id ∷ rest) w =
      put_tcb-IsValid v k.socket_id (record tcb { accept_queue = rest }) (omega (arith, w))

  pub accept-IsValid : IsValid (after_accept k s)
  unfolding accept left_by
  accept-IsValid = elim (Option-cases (get_tcb k.socket_id s)) [
    | inl absent ↦ rw (accept, absent) v
    | inr (tcb, found) ↦ elim (Bool-cases (is_listen tcb.current_state)) [
      | inl is ↦
          rw (accept, found, is)
            (take_child-IsValid tcb.accept_queue (get_tcb-IsValid v k.socket_id found))
      | inr other ↦ rw (accept, found, other) v
    ]
  ]

  pub send-IsValid : (xs : List ℕ) → IsValid (after_send k xs s)
  unfolding send sent left_by
  send-IsValid xs = elim (Option-cases (get_tcb k.socket_id s)) [
    | inl absent ↦ rw (send, absent) v
    | inr (tcb, found) ↦
        elim (Option-cases (Buffer.write max_ipv4_packet_size tcb.send_buffer xs)) [
          | inl full ↦ rw (send, found, full) v
          | inr (written, took) ↦
              let w = get_tcb-IsValid v k.socket_id found in
              let ring = Ring.write-IsValid xs w.send_ring took in
              let filled = record tcb { send_buffer = written.after } in
              rw (send, found, took)
                (add_dirty_tcb-IsValid
                  (put_tcb-IsValid v k.socket_id filled (omega (arith, w, ring))) k.socket_id)
        ]
  ]

  pub recv-IsValid : (n : ℕ) → IsValid (after_recv k n s)
  unfolding recv received left_by
  recv-IsValid n = elim (Option-cases (get_tcb k.socket_id s)) [
    | inl absent ↦ rw (recv, absent) v
    | inr (tcb, found) ↦ elim (Option-cases (Buffer.read max_ipv4_packet_size tcb.recv_buffer n)) [
      | inl dry ↦ rw (recv, found, dry) v
      | inr (got, took) ↦
          let w = get_tcb-IsValid v k.socket_id found in
          let ring = Ring.read-IsValid n w.recv_ring took in
          let read = record tcb { recv_buffer = got.after } in
          rw (recv, found, took) (put_tcb-IsValid v k.socket_id read (omega (arith, w, ring)))
    ]
  ]
