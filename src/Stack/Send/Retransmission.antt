-- ===== src/Stack/Send/Retransmission.antt =====
-- TcpStack.cpp, `check_retransmissions_`: which blocks are sent again, and what.
use tiny_cp.Base.{
  ℕ, ◌+◌, ◌-◌, ◌<◌, ◌≤◌, ◌≡◌, ◌&&◌, refl, ap, ◌∙◌, Bool, true, Bool-cases, inl, inr, arith, List,
  [], ◌∷◌, length, length-take, take, min, ltb, u32,
}
use tiny_cp.Base.Map.{Map, AllValues}
use tiny_cp.Buffer.Refinement.{contents, bytes-peek}
use tiny_cp.Tcb.{Tcb, TcpState, max_ipv4_packet_size}
use tiny_cp.Tcb.Invariant as Block
use tiny_cp.Tcp.Header.{TcpHeader}
use tiny_cp.Stack.State.{Host, Net, TcpStack}
use tiny_cp.Stack.Output.{ack_only, write_packet, writer_header, create_writer_tcp_packet}
use tiny_cp.Stack.Segments.{Says, writer_header-Says}
use tiny_cp.Stack.Send.{
  in_flight, is_due, is_established, oldest_bytes, retransmit, retransmit_all,
  check_retransmissions,
}
use tiny_cp.Stack.Invariant.{IsValid, Valid}

-- An established block with bytes in flight that it still holds, and nothing written for `rto`
-- milliseconds.
pub record IsOverdue (now : ℕ) (tcb : Tcb) : Type 0 where
  pub connected : tcb.current_state ≡ TcpState.established
  pub flying : 0 < in_flight tcb
  pub late : tcb.rto ≤ now - tcb.last_written
  pub held : 0 < length (contents max_ipv4_packet_size tcb.send_buffer)

-- The oldest bytes in flight, as many as one segment takes.
abbrev pub oldest : Tcb → List ℕ
oldest tcb = take (min (in_flight tcb) 1460) (contents max_ipv4_packet_size tcb.send_buffer)

-- The blocks and the packets under way before and after. A block that is overdue is sent again: a
-- segment with ACK, at `SND.UNA`, with its oldest bytes; its time and its count are set. Any other
-- block stays as it is, and sends nothing.
pub data Resent (host : Host) (now : ℕ) : Map ℕ Tcb → Net → Map ℕ Tcb → Net → Type 0 where
  none_left : (net : Net) → Resent host now [] net [] net
  kept :
      {rest rest' : Map ℕ Tcb} {net net' : Net} (id : ℕ) (tcb : Tcb)
      → ¬ IsOverdue now tcb
      → Resent host now rest net rest' net'
      → Resent host now ((id, tcb) ∷ rest) net ((id, tcb) ∷ rest') net'
  again :
      {rest rest' : Map ℕ Tcb} {net net' : Net} (id : ℕ) (tcb : Tcb) (header : TcpHeader)
      → IsOverdue now tcb
      → Says header tcb ack_only tcb.snd.una tcb.rcv.nxt
      → Resent host now rest
          (write_packet host tcb.src_address tcb.dst_address
            (record { header = header; payload = oldest tcb })
            net).net
          rest'
          net'
      → Resent host now
          ((id, tcb) ∷ rest)
          net
          ((
            id,
            record tcb {
              last_written = now;
              retransmit_attempts = u32 (tcb.retransmit_attempts + 1);
            },
          )
            ∷ rest')
          net'

established_of : (state : TcpState) → is_established state ≡ true → state ≡ TcpState.established
established_of TcpState.established e = refl
established_of TcpState.closed e = cc
established_of TcpState.listen e = cc
established_of TcpState.syn_sent e = cc
established_of TcpState.syn_received e = cc
established_of TcpState.fin_wait_1 e = cc
established_of TcpState.fin_wait_2 e = cc
established_of TcpState.close_wait e = cc
established_of TcpState.closing e = cc
established_of TcpState.last_ack e = cc
established_of TcpState.time_wait e = cc

-- The bytes that the code peeks, whose third limit is the capacity of the buffer.
oldest_bytes-oldest : (tcb : Tcb) → Block.IsValid tcb → oldest_bytes tcb ≡ oldest tcb
unfolding oldest_bytes
oldest_bytes-oldest tcb v =
    let limit : min (min (in_flight tcb) 1460) max_ipv4_packet_size ≡ min (in_flight tcb) 1460 =
      omega arith in
    bytes-peek v.send_ring (min (min (in_flight tcb) 1460) max_ipv4_packet_size) 0
    ∙ ap (λ n. take n (contents max_ipv4_packet_size tcb.send_buffer)) limit

-- The test of the code.
abbrev is_resent : ℕ → Tcb → Bool
is_resent now tcb = is_due now tcb && ltb 0 (length (oldest tcb))

is_resent-IsOverdue : (now : ℕ) (tcb : Tcb) → is_resent now tcb ≡ true → IsOverdue now tcb
unfolding is_due
is_resent-IsOverdue now tcb e =
    let size =
      length-take (min (in_flight tcb) 1460) (contents max_ipv4_packet_size tcb.send_buffer) in
    record {
      connected = established_of tcb.current_state (ground (arith, e));
      flying = ground (arith, e);
      late = ground (arith, e);
      held = ground (arith, e, size);
    }

is_resent-true : (now : ℕ) (tcb : Tcb) → IsOverdue now tcb → is_resent now tcb ≡ true
unfolding is_due
is_resent-true now tcb o =
    let size =
      length-take (min (in_flight tcb) 1460) (contents max_ipv4_packet_size tcb.send_buffer) in
    let live : is_established tcb.current_state ≡ true = ap is_established o.connected in
    let flying = o.flying in let late = o.late in let held = o.held in ground arith

retransmit_all-Resent :
    (host : Host) (now : ℕ) (m : Map ℕ Tcb) (net : Net)
    → AllValues Block.IsValid m
    → let swept = retransmit_all host now m net in Resent host now m net swept.sockets swept.net
unfolding retransmit_all retransmit create_writer_tcp_packet
retransmit_all-Resent host now [] net all = none_left net
retransmit_all-Resent host now ((id, tcb) ∷ rest) net (w, all) =
    let same = oldest_bytes-oldest tcb w in
    rw same (elim (Bool-cases (is_resent now tcb)) [
      | inl due ↦ rw due (
          again id tcb (writer_header tcb tcb.snd.una) (is_resent-IsOverdue now tcb due)
            (writer_header-Says tcb tcb.snd.una w.src_in w.dst_in w.una_in w.rcv_nxt_in)
            (retransmit_all-Resent host now rest _ all))
      | inr idle ↦ rw idle (
          kept id tcb (λ o. let due = is_resent-true now tcb o in ground (arith, idle))
            (retransmit_all-Resent host now rest net all))
    ])

-- In a valid stack `check_retransmissions` goes through the blocks as `Resent` says, at the time of
-- the clock: it sends those that are overdue again, in the order of the table, and only those.
pub check_retransmissions-Resent :
    (host : Host) (s : TcpStack)
    → IsValid s
    → let after = check_retransmissions host s in
      Resent host s.clock s.sockets.sockets s.net after.sockets.sockets after.net
unfolding check_retransmissions Valid
check_retransmissions-Resent host s v =
    retransmit_all-Resent host s.clock s.sockets.sockets s.net v.blocks
