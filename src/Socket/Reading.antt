-- ===== src/Socket/Reading.antt =====
-- The bytes that `recv` gives.
use tiny_cp.Base.{
  ℕ, ◌+◌, ◌-◌, ◌<◌, ◌≡◌, ◌≢◌, refl, ap, ◌∙◌, Bool, true, ◌&&◌, ◌||◌, ◌==◌, Bool-cases, inl, inr,
  some, arith, List, ◌++◌, length, length-append, length-take, sym, subst, take, drop, ltb,
  if◌then◌else◌,
}
use tiny_cp.Buffer.{fetch, size, force_wake_up, available_capacity}
use tiny_cp.Buffer.Invariant.{IsValid, force_wake_up-IsValid}
use tiny_cp.Buffer.Refinement.{contents, length-contents, bytes-fetch}
use tiny_cp.Buffer.Waiting.{read_of_some}
use tiny_cp.Tcp.View
use tiny_cp.Stack.Output.{reply, ack_only}
use tiny_cp.Tcb.{Tcb, TcpState, set_state, max_ipv4_packet_size}
use tiny_cp.Tcp.View.{TcpPacketView}
use tiny_cp.Stack.State.{Host, TcpStack, get_tcb, put_tcb}
use tiny_cp.Stack.Handlers.{returns, payload_in_established, fin_taken, fin_in_established}
use tiny_cp.Stack.Handlers.Payload.{ReturnsTook, payload_in_established_took}
use tiny_cp.Stack.Lookups.{get-put_tcb}
use tiny_cp.Socket.{TcpSocket, state, recv, received, Read, at_end}

-- The first bytes of a non-empty ring, which are then gone from it.
pub record IsRead (id n : ℕ) (held : List ℕ) (out : Read) : Type 0 where
  pub bytes : out.bytes ≡ take n held
  pub size : out.size ≡ length out.bytes
  pub rest :
      (new : Tcb) × (get_tcb id out.stack ≡ some new)
      × (contents max_ipv4_packet_size new.recv_buffer ≡ drop n held)

-- `recv` returns, and what it returns is as `IsRead` says.
pub Reads : TcpSocket → ℕ → List ℕ → TcpStack → Type 0
Reads k n held s = (out : Read) × (recv k n s ≡ some out) × IsRead k.socket_id n held out

count_of_eof : (end : Bool) (m : ℕ) → (if m == 0 && end then 0 else m) ≡ m
count_of_eof end m = ground arith

reads :
    (k : TcpSocket) (n : ℕ) (s : TcpStack) (tcb : Tcb)
    → k.socket_id ≢ 0
    → get_tcb k.socket_id s ≡ some tcb
    → IsValid max_ipv4_packet_size tcb.recv_buffer
    → (ltb 0 tcb.recv_buffer.curr_len || tcb.recv_buffer.is_forcefully_woken_up) ≡ true
    → Reads k n (contents max_ipv4_packet_size tcb.recv_buffer) s
unfolding Reads recv received
reads k n s tcb h found v ready =
    let got = fetch max_ipv4_packet_size tcb.recv_buffer n in
    let new : Tcb = record tcb { recv_buffer = got.after } in
    let (bytes, rest) = bytes-fetch v n in
    (
      record {
        size = if length got.bytes == 0 && at_end tcb.current_state then 0 else length got.bytes;
        bytes = got.bytes;
        stack = put_tcb k.socket_id new s;
      },
      rw (recv, found, read_of_some max_ipv4_packet_size n tcb.recv_buffer ready) refl,
      record {
        bytes = bytes;
        size = count_of_eof (at_end tcb.current_state) (length got.bytes);
        rest = (new, get-put_tcb k.socket_id new s h, rest);
      },
    )

-- What a peer's segment brought can be read: with room in a valid receive buffer the handler of
-- its payload returns, and `recv` then returns at once, with the oldest of the bytes that were in the
-- buffer or came with the segment, and takes just these out of it.
pub recv-payload_in_established :
    (host : Host) (k : TcpSocket) (n : ℕ) (payload : List ℕ) (s : TcpStack) (tcb : Tcb)
    → k.socket_id ≢ 0
    → IsValid max_ipv4_packet_size tcb.recv_buffer
    → size tcb.recv_buffer < max_ipv4_packet_size
    → 0 < length payload
    → let held =
        contents max_ipv4_packet_size tcb.recv_buffer
        ++ take (available_capacity max_ipv4_packet_size tcb.recv_buffer) payload in
      (m : ℕ) × (after : TcpStack) × (payload_in_established host k.socket_id payload s tcb
        ≡ returns m after)
      × Reads k n held after
unfolding ReturnsTook available_capacity size
recv-payload_in_established host k n payload s tcb h v room some_bytes =
    let (m, after, new, returned, found, took) =
      payload_in_established_took host k.socket_id payload s tcb h v room in
    let held = contents max_ipv4_packet_size tcb.recv_buffer in
    let fresh = take (max_ipv4_packet_size - tcb.recv_buffer.curr_len) payload in
    let len : new.recv_buffer.curr_len ≡ length held + length fresh =
      sym (length-contents took.ring) ∙ ap length took.buffered ∙ length-append held fresh in
    let ready : ltb 0 new.recv_buffer.curr_len || new.recv_buffer.is_forcefully_woken_up ≡ true =
      ground (arith, length-take (max_ipv4_packet_size - tcb.recv_buffer.curr_len) payload) in
    let result = reads k n after new h found took.ring ready in
    (m, after, returned, subst (λ bytes. Reads k n bytes after) took.buffered result)

recv_buffer-fin_taken :
    (packet : TcpPacketView) (tcb : Tcb) → (fin_taken packet tcb).recv_buffer ≡ tcb.recv_buffer
unfolding fin_taken
recv_buffer-fin_taken packet tcb = elim (Bool-cases (View.ack packet)) [
  | inl ack ↦ rw ack refl
  | inr none_acked ↦ rw none_acked refl
]

-- A FIN ends the wait of a reader: its block is then in CLOSE_WAIT, and `recv` returns the bytes
-- that are still there, none where the buffer is empty.
pub recv-fin_in_established :
    (host : Host) (k : TcpSocket) (n : ℕ) (packet : TcpPacketView) (s : TcpStack) (tcb : Tcb)
    → k.socket_id ≢ 0
    → IsValid max_ipv4_packet_size tcb.recv_buffer
    → let after = fin_in_established host k.socket_id packet s tcb in
      (state k after ≡ TcpState.close_wait)
      × Reads k n (contents max_ipv4_packet_size tcb.recv_buffer) after
unfolding fin_in_established state set_state force_wake_up
recv-fin_in_established host k n packet s tcb h v =
    let taken = fin_taken packet tcb in
    let same = recv_buffer-fin_taken packet tcb in
    let sent = reply host taken ack_only taken.snd.nxt taken.rcv.nxt s in
    let waiting : Tcb = record (set_state TcpState.close_wait taken) {
      recv_buffer = force_wake_up taken.recv_buffer;
    } in
    let found = get-put_tcb k.socket_id waiting sent.stack h in
    let valid = force_wake_up-IsValid (subst (IsValid max_ipv4_packet_size) (sym same) v) in
    (
      rw (state, found) refl,
      subst
          (λ b.
            Reads k n (contents max_ipv4_packet_size b) (put_tcb k.socket_id waiting sent.stack))
          same
          (reads k n (put_tcb k.socket_id waiting sent.stack) waiting h found valid (ground arith)),
    )
