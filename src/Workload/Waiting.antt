-- ===== src/Workload/Waiting.antt =====
-- The loop of main.cpp does not get past its first read.
use tiny_cp.Base.{
  ℕ, ◌≡◌, ◌≢◌, refl, arith, true, not, ◌||◌, List, [], ◌∷◌, none, Option-cases, Bool-cases, inl,
  inr, ◌==◌,
}
use tiny_cp.Base.Map.{nat_eq, lookup, insert}
use tiny_cp.Buffer
use tiny_cp.Buffer.Waiting.{read_of_empty}
use tiny_cp.Tcb.{new_tcb, max_ipv4_packet_size}
use tiny_cp.Tables.Sockets
use tiny_cp.Stack.State.{Host, TcpStack, get_tcb, put_tcb, add_dirty_tcb}
use tiny_cp.Stack.Daemon.{daemon_round}
use tiny_cp.Socket.{TcpSocket, send, recv, sent, received, after_send, left_by}
use tiny_cp.Text.{before, after}
use tiny_cp.Text.Stream.{
  extract, extract_char, read_number, read_sign, read_digits, skip_space, is_space, in_range, scan,
}
use tiny_cp.Address.Parse.{from_string, parse_ip, parse_port, join_octets}
use tiny_cp.Tables.Listeners
use tiny_cp.Tables.Connections
use tiny_cp.Stack.State.{bind_socket, generate_random_uint32}
use tiny_cp.Stack.Close.{complete_address, register_connection}
use tiny_cp.Socket.{bind, number_block}
use tiny_cp.Workload.{set_up, addr_a, addr_b}
use tiny_cp.Workload.Quiet.{
  IsQuiet, put_tcb-IsQuiet, get_tcb-Silent, daemon_round-IsQuiet, stack_of,
}

-- What happens besides the reading: a call of `send` on either socket, and a round of the daemon
-- in which the interface has nothing.
pub data Action : Type 0 where
  sends : TcpSocket → List ℕ → Action
  round : Action

unfoldable pub perform : Host → List Action → TcpStack → TcpStack
perform host [] s = s
perform host (Action.sends k data_bytes ∷ actions) s =
    perform host actions (after_send k data_bytes s)
perform host (Action.round ∷ actions) s = perform host actions (stack_of (daemon_round host [] s))

add_dirty_tcb-IsQuiet : (b id : ℕ) (s : TcpStack) → IsQuiet b s → IsQuiet b (add_dirty_tcb id s)
unfolding add_dirty_tcb
add_dirty_tcb-IsQuiet b id s q =
    elim (Bool-cases (id == 0 || not (Sockets.contains id s.sockets))) [
      | inl passed ↦ rw passed q
      | inr marked ↦
          rw marked (record {
            blocks = q.blocks;
            loopback = q.loopback;
            unsent = q.unsent;
            alive = q.alive;
          })
    ]

after_send-IsQuiet :
    (b : ℕ) (k : TcpSocket) (data_bytes : List ℕ) (s : TcpStack)
    → IsQuiet b s
    → IsQuiet b (after_send k data_bytes s)
unfolding send sent left_by
after_send-IsQuiet b k data_bytes s q = elim (Option-cases (get_tcb k.socket_id s)) [
  | inl absent ↦ rw (send, absent) q
  | inr (tcb, found) ↦
      let silent = get_tcb-Silent b k.socket_id s q found in
      elim (Option-cases (Buffer.write max_ipv4_packet_size tcb.send_buffer data_bytes)) [
        | inl full ↦ rw (send, found, sent, full) q
        | inr (w, stored) ↦
            rw (send, found, sent, stored)
              (add_dirty_tcb-IsQuiet b k.socket_id
                (put_tcb k.socket_id (record tcb { send_buffer = w.after }) s)
                (put_tcb-IsQuiet b k.socket_id (record tcb { send_buffer = w.after }) s
                  (record { closed = silent.closed; empty = silent.empty; asleep = silent.asleep })
                  q))
      ]
]

perform-IsQuiet :
    (host : Host) (b : ℕ) (actions : List Action) (s : TcpStack)
    → IsQuiet b s
    → IsQuiet b (perform host actions s)
unfolding perform
perform-IsQuiet host b [] s q = q
perform-IsQuiet host b (Action.sends k data_bytes ∷ actions) s q =
    perform-IsQuiet host b actions (after_send k data_bytes s)
      (after_send-IsQuiet b k data_bytes s q)
perform-IsQuiet host b (Action.round ∷ actions) s q =
    perform-IsQuiet host b actions (stack_of (daemon_round host [] s))
      (daemon_round-IsQuiet host b s q)

found_of_alive :
    (id : ℕ) (t : Sockets.SocketTable)
    → Sockets.contains id t ≡ true
    → Sockets.find_socket id t ≢ none
unfolding Sockets.contains Sockets.find_socket
found_of_alive id t alive absent = ground (arith, alive, absent)

-- A reader of a quiet stack waits.
recv-IsQuiet : (k : TcpSocket) (n : ℕ) (s : TcpStack) → IsQuiet k.socket_id s → recv k n s ≡ none
unfolding recv received get_tcb
recv-IsQuiet k n s q = elim (Option-cases (get_tcb k.socket_id s)) [
  | inl absent ↦ absurd (found_of_alive k.socket_id s.sockets q.alive absent)
  | inr (tcb, found) ↦
      let silent = get_tcb-Silent k.socket_id k.socket_id s q found in
      let waits = read_of_empty max_ipv4_packet_size n tcb.recv_buffer silent.empty silent.asleep in
      rw (recv, found, received, waits) refl
]

set_up-IsQuiet : (host : Host) → IsQuiet (set_up host).socket_b.socket_id (set_up host).stack
unfolding set_up addr_a addr_b bind number_block complete_address bind_socket register_connection
    generate_random_uint32 get_tcb put_tcb from_string parse_ip parse_port join_octets before after
    extract extract_char read_number read_sign read_digits skip_space is_space in_range scan
    Listeners.bind_new Connections.register_connection Connections.claim Sockets.create_socket
    Sockets.contains Sockets.find_socket Sockets.store insert lookup new_tcb
set_up-IsQuiet host = record {
  blocks = (
    record { closed = refl; empty = refl; asleep = refl },
    (record { closed = refl; empty = refl; asleep = refl }, tt),
  );
  loopback = refl;
  unsent = refl;
  alive = refl;
}

-- Whatever is sent on the two sockets of main.cpp, and however many rounds the daemon makes of an
-- interface that has nothing, the first read of its loop waits, and the stack has sent nothing.
pub workload_waits :
    (host : Host) (actions : List Action) (n : ℕ)
    → (recv (set_up host).socket_b n (perform host actions (set_up host).stack) ≡ none)
      × ((perform host actions (set_up host).stack).net.tun_out ≡ [])
      × ((perform host actions (set_up host).stack).net.loopback_packet_queue ≡ [])
workload_waits host actions n =
    let start = set_up-IsQuiet host in
    let q =
      perform-IsQuiet host (set_up host).socket_b.socket_id actions (set_up host).stack start in
    (
      recv-IsQuiet (set_up host).socket_b n (perform host actions (set_up host).stack) q,
      q.unsent,
      q.loopback,
    )
