-- ===== src/Socket/Resuming.antt =====
-- The thread of the stack that waits for room in a receive buffer, and `recv`, which makes that room.
use tiny_cp.Base.{
  ℕ, ◌-◌, ◌<◌, ◌≤◌, ◌==◌, ◌&&◌, if◌then◌else◌, subst, ◌≡◌, ◌≢◌, refl, ap, ◌∙◌, true, false, ◌||◌,
  ltb, some, arith, List, ◌++◌, length, length-drop, take, drop, add32,
}
use tiny_cp.Buffer.{size, store, fetch}
use tiny_cp.Buffer.Invariant.{IsValid, fetch-IsValid}
use tiny_cp.Buffer.Refinement.{contents, length-contents, bytes-fetch, contents-store}
use tiny_cp.Buffer.Waiting.{write_of_room, read_of_some}
use tiny_cp.Tcb.{Tcb, max_ipv4_packet_size}
use tiny_cp.Stack.State.{Host, TcpStack, get_tcb, put_tcb}
use tiny_cp.Stack.Output.{reply, ack_only}
use tiny_cp.Stack.Handlers.{
  Outcome, returns, waits, payload_written, payload_in_established, resume,
}
use tiny_cp.Stack.Handlers.Payload.{get-reply, payload_in_established_waits}
use tiny_cp.Stack.Lookups.{get-put_tcb}
use tiny_cp.Socket.{TcpSocket, Read, recv, received, at_end}

-- A write that has room: the handler returns, the bytes for which there is room are at the end of
-- the buffer, and `RCV.NXT` is as it was.
pub record Wrote (id : ℕ) (payload held : List ℕ) (room nxt : ℕ) (out : Outcome) : Type 0 where
  pub size : ℕ
  pub after : TcpStack
  pub new : Tcb
  pub returned : out ≡ returns size after
  pub found : get_tcb id after ≡ some new
  pub counted : new.rcv.nxt ≡ nxt
  pub buffered : contents max_ipv4_packet_size new.recv_buffer ≡ held ++ take room payload

resume-Wrote :
    (host : Host) (id : ℕ) (payload : List ℕ) (s : TcpStack) (tcb : Tcb)
    → id ≢ 0
    → get_tcb id s ≡ some tcb
    → IsValid max_ipv4_packet_size tcb.recv_buffer
    → size tcb.recv_buffer < max_ipv4_packet_size
    → Wrote id payload
        (contents max_ipv4_packet_size tcb.recv_buffer)
        (max_ipv4_packet_size - tcb.recv_buffer.curr_len)
        tcb.rcv.nxt
        (resume host id payload s)
unfolding resume payload_written reply
resume-Wrote host id payload s tcb nonzero present v room =
    let out = store max_ipv4_packet_size tcb.recv_buffer payload in
    let new : Tcb = record tcb { recv_buffer = out.after } in
    let some_room = write_of_room max_ipv4_packet_size tcb.recv_buffer payload room in
    let sent = reply host new ack_only new.snd.nxt new.rcv.nxt (put_tcb id new s) in
    record {
      size = sent.size;
      after = sent.stack;
      new = new;
      returned = rw (resume, present, payload_written, some_room) refl;
      found =
          get-reply host id new ack_only new.snd.nxt new.rcv.nxt (put_tcb id new s)
          ∙ get-put_tcb id new s nonzero;
      counted = refl;
      buffered = contents-store v payload;
    }

-- A wait and its end: the thread of the stack waits, `recv` takes the first `n` of the bytes held,
-- and the thread then goes on with the payload, for which there are `n` free places.
pub record WaitsForRead (host : Host) (k : TcpSocket) (n nxt : ℕ) (payload held : List ℕ)
    (out : Outcome) : Type 0 where
  pub blocked : TcpStack
  pub waiting : out ≡ waits k.socket_id payload blocked
  pub got : Read
  pub read : recv k n blocked ≡ some got
  pub bytes : got.bytes ≡ take n held
  pub resumed :
      Wrote k.socket_id payload (drop n held) n nxt (resume host k.socket_id payload got.stack)

-- With a full and valid receive buffer that was not woken up the thread of the stack waits, until
-- the application reads: a `recv` of `n` bytes, of which there are some and at most as many as the
-- buffer holds, returns the oldest `n`. The thread then returns: behind the bytes that are left stand
-- the first `n` of the payload, the others are lost, and `RCV.NXT` has moved by the size of the whole
-- payload.
pub payload_in_established-WaitsForRead :
    (host : Host) (k : TcpSocket) (n : ℕ) (payload : List ℕ) (s : TcpStack) (tcb : Tcb)
    → k.socket_id ≢ 0
    → IsValid max_ipv4_packet_size tcb.recv_buffer
    → size tcb.recv_buffer ≡ max_ipv4_packet_size
    → tcb.recv_buffer.is_forcefully_woken_up ≡ false
    → 0 < n
    → n ≤ max_ipv4_packet_size
    → WaitsForRead host k n
        (add32 tcb.rcv.nxt (length payload))
        payload
        (contents max_ipv4_packet_size tcb.recv_buffer)
        (payload_in_established host k.socket_id payload s tcb)
unfolding recv received size
payload_in_established-WaitsForRead host k n payload s tcb h v full asleep some_bytes fits =
    let counted : Tcb = record tcb {
      rcv = record (tcb.rcv) { nxt = add32 tcb.rcv.nxt (length payload) };
    } in
    let blocked = put_tcb k.socket_id counted s in
    let got = fetch max_ipv4_packet_size tcb.recv_buffer n in
    let drained : Tcb = record counted { recv_buffer = got.after } in
    let (bytes, rest) = bytes-fetch v n in
    let valid = fetch-IsValid n v in
    let left : got.after.curr_len ≡ max_ipv4_packet_size - n = ground (
      arith,
      length-contents valid,
      ap length rest,
      length-drop n (contents max_ipv4_packet_size tcb.recv_buffer),
      length-contents v,
    ) in
    let ready : (ltb 0 tcb.recv_buffer.curr_len || tcb.recv_buffer.is_forcefully_woken_up) ≡ true =
      ground arith in
    let room : max_ipv4_packet_size - got.after.curr_len ≡ n = omega arith in
    let out : Read = record {
      size = if length got.bytes == 0 && at_end tcb.current_state then 0 else length got.bytes;
      bytes = got.bytes;
      stack = put_tcb k.socket_id drained blocked;
    } in
    let wrote =
      resume-Wrote host k.socket_id payload out.stack drained h
        (get-put_tcb k.socket_id drained blocked h) valid (omega arith) in
    record {
      blocked = blocked;
      waiting = payload_in_established_waits host k.socket_id payload s tcb full asleep;
      got = out;
      read =
          rw
            (
              recv,
              get-put_tcb k.socket_id counted s h,
              read_of_some max_ipv4_packet_size n tcb.recv_buffer ready,
            )
            refl;
      bytes = bytes;
      resumed =
          subst
            (λ held.
              Wrote k.socket_id payload held n counted.rcv.nxt
                (resume host k.socket_id payload out.stack))
            rest
            (subst
              (λ r.
                Wrote k.socket_id payload (contents max_ipv4_packet_size got.after) r
                  counted.rcv.nxt (resume host k.socket_id payload out.stack))
              room wrote);
    }
