-- ===== src/Stack/Send/Window.antt =====
-- What one data segment of `process_block_` takes from the peer's window and the send buffer.
use tiny_cp.Base.{
  ℕ, refl, ◌+◌, ◌-◌, ◌^◌, ◌≤◌, ◌<◌, ◌≡◌, ◌⊎◌, inl, inr, Bool-cases, arith, length, min, add32,
  sub32, ◌==◌, ◌||◌,
}
use tiny_cp.Buffer.{size}
use tiny_cp.Buffer.Bounds.{length-peek}
use tiny_cp.Buffer.Invariant.{IsValid}
use tiny_cp.Tcb.{Tcb, max_ipv4_packet_size}
use tiny_cp.Stack.State.{Host, TcpStack}
use tiny_cp.Stack.Send.{in_flight, usable_window, segment_limit, next_bytes, send_next}

-- The sequence numbers are of 32 bits, and the bytes in flight are still in the send buffer.
unfoldable pub IsSending : Tcb → Type 0
IsSending tcb =
    IsValid max_ipv4_packet_size tcb.send_buffer
    × (tcb.snd.nxt < 2 ^ 32)
    × (tcb.snd.una < 2 ^ 32)
    × (in_flight tcb ≤ size tcb.send_buffer)

length-next_bytes :
    (tcb : Tcb)
    → length (next_bytes tcb)
      ≡ min (segment_limit (usable_window tcb)) (tcb.send_buffer.curr_len - in_flight tcb)
unfolding next_bytes
length-next_bytes tcb =
    length-peek max_ipv4_packet_size tcb.send_buffer (segment_limit (usable_window tcb))
      (in_flight tcb)

advance :
    (nxt una n : ℕ)
    → nxt < 2 ^ 32
    → una < 2 ^ 32
    → sub32 nxt una + n < 2 ^ 32
    → sub32 (add32 nxt n) una ≡ sub32 nxt una + n
advance nxt una n h k fits = omega arith

-- A block that may send either stays as it is, which it does just where its peer's window is full
-- or every byte that it holds is in flight, or sends between 1 and 1460 bytes: these are then in
-- flight with the others, the bytes in flight fit the peer's window, and all of them are held in
-- the send buffer until they are acknowledged.
pub send_next_window :
    (host : Host) (id : ℕ) (tcb : Tcb) (s : TcpStack)
    → IsSending tcb
    → let f = send_next host id tcb s in
      let n = length (next_bytes tcb) in
      IsSending f.tcb
      × (((f.tcb ≡ tcb)
            × (f.stack ≡ s)
            × ((tcb.snd.wnd ≤ in_flight tcb) ⊎ (size tcb.send_buffer ≡ in_flight tcb)))
          ⊎ ((0 < n)
              × (n ≤ 1460)
              × (in_flight f.tcb ≡ in_flight tcb + n)
              × (in_flight f.tcb ≤ tcb.snd.wnd)))
unfolding send_next IsSending in_flight size usable_window
send_next_window host id tcb s (v, nxt_in, una_in, held) =
    let n = length-next_bytes tcb in
    let len_in = v.len_in in
    let step =
      advance tcb.snd.nxt tcb.snd.una (length (next_bytes tcb)) nxt_in una_in (omega arith) in
    elim (Bool-cases (usable_window tcb == 0 || length (next_bytes tcb) == 0)) [
      | inl stop ↦ rw stop ((v, nxt_in, una_in, held), inl (refl, refl, ground arith))
      | inr go ↦ rw go (
        (v, omega arith, una_in, ground arith),
        inr (ground arith, ground arith, step, ground arith),
      )
    ]
