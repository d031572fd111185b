-- ===== src/Stack/Handlers/Payload.antt =====
-- The payload of a segment in `ESTABLISHED`.
use tiny_cp.Base.{ℕ, ◌<◌, ◌≡◌, ◌≢◌, ◌∙◌, false, refl, some, List, ◌++◌, length, take, add32}
use tiny_cp.Buffer.{size, store, available_capacity}
use tiny_cp.Buffer.Invariant.{IsValid, store-IsValid}
use tiny_cp.Buffer.Refinement.{contents, contents-store}
use tiny_cp.Buffer.Waiting.{write_of_room, write_of_full}
use tiny_cp.Tcb.{Tcb, max_ipv4_packet_size}
use tiny_cp.Stack.State.{Host, TcpStack, get_tcb, put_tcb}
use tiny_cp.Stack.Output.{Control, reply, ack_only}
use tiny_cp.Stack.Handlers.{Outcome, returns, waits, payload_written, payload_in_established}
use tiny_cp.Stack.Lookups.{get-put_tcb}

-- A block that took a payload: its ring is valid, the bytes for which the receive buffer had room are at its end, and
-- `RCV.NXT` has moved by the size of the whole payload.
pub record Took (payload : List ℕ) (old new : Tcb) : Type 0 where
  pub ring : IsValid max_ipv4_packet_size new.recv_buffer
  pub nxt : new.rcv.nxt ≡ add32 old.rcv.nxt (length payload)
  pub buffered :
      contents max_ipv4_packet_size new.recv_buffer
      ≡ contents max_ipv4_packet_size old.recv_buffer
        ++ take (available_capacity max_ipv4_packet_size old.recv_buffer) payload

-- The handler returned, and the stored block has taken the payload.
unfoldable pub ReturnsTook : ℕ → List ℕ → Tcb → Outcome → Type 0
ReturnsTook id payload old out =
    (n : ℕ) × (after : TcpStack) × (new : Tcb) × (out ≡ returns n after)
    × (get_tcb id after ≡ some new)
    × Took payload old new

-- Sending a segment leaves the blocks alone.
pub get-reply :
    (host : Host) (id : ℕ) (tcb : Tcb) (c : Control) (seq acked : ℕ) (s : TcpStack)
    → get_tcb id (reply host tcb c seq acked s).stack ≡ get_tcb id s
unfolding get_tcb reply
get-reply host id tcb c seq acked s = refl

-- With room in the receive buffer the handler returns: at the end of the buffer stand the bytes of
-- the payload for which there was room, and `RCV.NXT` has moved by the size of the whole payload.
pub payload_in_established_took :
    (host : Host) (id : ℕ) (payload : List ℕ) (s : TcpStack) (tcb : Tcb)
    → id ≢ 0
    → IsValid max_ipv4_packet_size tcb.recv_buffer
    → size tcb.recv_buffer < max_ipv4_packet_size
    → ReturnsTook id payload tcb (payload_in_established host id payload s tcb)
unfolding ReturnsTook available_capacity payload_in_established payload_written reply
payload_in_established_took host id payload s tcb nonzero v room =
    let out = store max_ipv4_packet_size tcb.recv_buffer payload in
    let new : Tcb = record tcb {
      rcv = record (tcb.rcv) { nxt = add32 tcb.rcv.nxt (length payload) };
      recv_buffer = out.after;
    } in
    let some_room = write_of_room max_ipv4_packet_size tcb.recv_buffer payload room in
    let sent = reply host new ack_only new.snd.nxt new.rcv.nxt (put_tcb id new s) in
    (
      sent.size,
      sent.stack,
      new,
      rw (payload_in_established, payload_written, some_room) refl,
      get-reply host id new ack_only new.snd.nxt new.rcv.nxt (put_tcb id new s)
          ∙ get-put_tcb id new s nonzero,
      record { ring = store-IsValid payload v; nxt = refl; buffered = contents-store v payload },
    )

-- Without room, and unless the buffer was woken up, the thread of the stack waits there, with the
-- payload already counted in `RCV.NXT`.
pub payload_in_established_waits :
    (host : Host) (id : ℕ) (payload : List ℕ) (s : TcpStack) (tcb : Tcb)
    → size tcb.recv_buffer ≡ max_ipv4_packet_size
    → tcb.recv_buffer.is_forcefully_woken_up ≡ false
    → payload_in_established host id payload s tcb
      ≡ waits id payload (
          put_tcb id
            (record tcb { rcv = record (tcb.rcv) { nxt = add32 tcb.rcv.nxt (length payload) } })
            s)
unfolding payload_in_established payload_written put_tcb
payload_in_established_waits host id payload s tcb full asleep =
    rw
      (
        payload_in_established,
        payload_written,
        write_of_full max_ipv4_packet_size tcb.recv_buffer payload full asleep,
      )
      refl
