-- ===== src/Socket/Writing.antt =====
-- The bytes that `send` takes.
use tiny_cp.Base.{
  ℕ, ◌-◌, ◌<◌, ◌≡◌, ◌≢◌, refl, ap, ◌∙◌, some, List, [], ◌∷◌, ◌++◌, length, take-min, sym, take,
  drop, min,
}
use tiny_cp.Buffer.{store, size, available_capacity}
use tiny_cp.Buffer.Invariant.{IsValid, store-IsValid}
use tiny_cp.Buffer.Refinement.{contents, contents-store, bytes-peek, count-store}
use tiny_cp.Buffer.Waiting.{write_of_room}
use tiny_cp.Tcb.{Tcb, max_ipv4_packet_size}
use tiny_cp.Stack.State.{TcpStack, Sized, get_tcb, put_tcb, add_dirty_tcb}
use tiny_cp.Stack.Send.{in_flight, usable_window, segment_limit, next_bytes}
use tiny_cp.Stack.Lookups.{add_dirty_tcb_alive, get-put_tcb, contains-put_tcb}
use tiny_cp.Socket.{TcpSocket, send, sent}

-- What `send` leaves: the bytes for which there was room stand behind those that were in the buffer,
-- the socket is marked for the daemon, and its next segment has the oldest bytes not in flight.
pub record IsSent (id : ℕ) (data_bytes : List ℕ) (s : TcpStack) (tcb : Tcb) (out : Sized)
    : Type 0 where
  pub new : Tcb
  pub found : get_tcb id out.stack ≡ some new
  pub size :
      out.size ≡ min (length data_bytes) (available_capacity max_ipv4_packet_size tcb.send_buffer)
  pub buffered :
      contents max_ipv4_packet_size new.send_buffer
      ≡ contents max_ipv4_packet_size tcb.send_buffer ++ take out.size data_bytes
  pub marked : out.stack.dirty_socket_ids ≡ s.dirty_socket_ids ++ (id ∷ [])
  pub next :
      next_bytes new
      ≡ take (segment_limit (usable_window tcb)) (
          drop
            (in_flight tcb)
            (contents max_ipv4_packet_size tcb.send_buffer ++ take out.size data_bytes))

-- With room in a valid send buffer `send` returns at once, and leaves what `IsSent` says.
pub send-IsSent :
    (k : TcpSocket) (data_bytes : List ℕ) (s : TcpStack) (tcb : Tcb)
    → k.socket_id ≢ 0
    → get_tcb k.socket_id s ≡ some tcb
    → IsValid max_ipv4_packet_size tcb.send_buffer
    → size tcb.send_buffer < max_ipv4_packet_size
    → (out : Sized) × (send k data_bytes s ≡ some out) × IsSent k.socket_id data_bytes s tcb out
unfolding send sent available_capacity next_bytes usable_window in_flight put_tcb get_tcb
send-IsSent k data_bytes s tcb h found v room =
    let id = k.socket_id in
    let out = store max_ipv4_packet_size tcb.send_buffer data_bytes in
    let new : Tcb = record tcb { send_buffer = out.after } in
    let put = put_tcb id new s in
    let taken = write_of_room max_ipv4_packet_size tcb.send_buffer data_bytes room in
    let dirty = add_dirty_tcb_alive id put h (contains-put_tcb id new s h) in
    let held = contents max_ipv4_packet_size tcb.send_buffer in
    let filled : contents max_ipv4_packet_size out.after ≡ held ++ take out.count data_bytes =
      contents-store v data_bytes
      ∙ ap (λ xs. held ++ xs)
          (sym (take-min (max_ipv4_packet_size - tcb.send_buffer.curr_len) data_bytes)
            ∙ ap (λ n. take n data_bytes) (sym (count-store v data_bytes))) in
    let limit = segment_limit (usable_window tcb) in
    let next =
      bytes-peek (store-IsValid data_bytes v) limit (in_flight tcb)
      ∙ ap (λ xs. take limit (drop (in_flight tcb) xs)) filled in
    (
      record { size = out.count; stack = add_dirty_tcb id put },
      rw (send, found, taken) refl,
      record {
        new = new;
        found = rw dirty (get-put_tcb id new s h);
        size = count-store v data_bytes;
        buffered = filled;
        marked = rw dirty refl;
        next = next;
      },
    )
