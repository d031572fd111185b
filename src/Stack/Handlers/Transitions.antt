-- ===== src/Stack/Handlers/Transitions.antt =====
-- The states through which the segments of a peer take a block.
pub mod Established
use tiny_cp.Base.{
  ℕ, ◌≡◌, ◌≢◌, ◌∙◌, ◌⊎◌, refl, sym, ap, subst, Bool, true, false, not, ◌&&◌, ◌==◌, none, Option,
  Option-cases, Bool-cases, inl, inr, some, arith, List, length, ltb, add32, sub32, is_positive,
}
use tiny_cp.Base.Map.{lookup}
use tiny_cp.Buffer.{write, force_wake_up}
use tiny_cp.Tcb.{Tcb, TcpState, set_state, max_ipv4_packet_size}
use tiny_cp.Tcp.View
use tiny_cp.Tcp.View.{TcpPacketView}
use tiny_cp.Tables.Sockets
use tiny_cp.Tables.Laws.{find_socket-destroy_socket}
use tiny_cp.Tables.Connections
use tiny_cp.Tables.Connections.{connection_key_eq, key}
use tiny_cp.Stack.State.{Host, TcpStack, get_tcb, put_tcb, destroy_connection}
use tiny_cp.Stack.Output.{Control, reply, ack_only, rst_only, syn_ack}
use tiny_cp.Stack.Handlers.{
  Outcome, returns, waits, ack_in_established, ack_taken, payload_in_established,
  established_segment, fin_in_established, fin_taken, syn_sent_segment, fin_wait_1_segment,
  fin_wait_2_segment, last_ack_segment, destroy_own, finish_with, fin_counted, fin_wait_2_counted,
  syn_seen, acked_syn_seen,
}
use tiny_cp.Stack.Lookups.{get-put_tcb}

-- To stay, or an arrow of RFC 793's diagram that a segment may take; the wait of `TIME_WAIT` is left
-- out.
pub data Edge : TcpState → TcpState → Type 0 where
  stay : (q : TcpState) → Edge q q
  refused : Edge TcpState.syn_sent TcpState.closed
  opened : Edge TcpState.syn_sent TcpState.established
  syn_acked : Edge TcpState.syn_received TcpState.established
  fin_first : Edge TcpState.established TcpState.close_wait
  crossed : Edge TcpState.syn_sent TcpState.syn_received
  fin_acked : Edge TcpState.fin_wait_1 TcpState.fin_wait_2
  fin_crossed : Edge TcpState.fin_wait_1 TcpState.closing
  fin_both : Edge TcpState.fin_wait_1 TcpState.closed
  fin_second : Edge TcpState.fin_wait_2 TcpState.closed
  closing_acked : Edge TcpState.closing TcpState.closed
  last_acked : Edge TcpState.last_ack TcpState.closed

-- The block has taken an arrow.
unfoldable pub Moved : ℕ → TcpState → TcpStack → Type 0
Moved id from s = (t : Tcb) × (get_tcb id s ≡ some t) × Edge from t.current_state

-- The block is gone, or has taken an arrow.
abbrev pub Steps : ℕ → TcpState → TcpStack → Type 0
Steps id from s = (get_tcb id s ≡ none) ⊎ Moved id from s

module _ (id : ℕ) (from : TcpState) (s : TcpStack) where
  pub Moved-put_tcb :
      (t : Tcb) → id ≢ 0 → Edge from t.current_state → Moved id from (put_tcb id t s)
  unfolding Moved
  Moved-put_tcb t h e = (t, get-put_tcb id t s h, e)

  pub Moved-stay : (t : Tcb) → get_tcb id s ≡ some t → t.current_state ≡ from → Moved id from s
  unfolding Moved
  Moved-stay t found e = (t, found, subst (λ q. Edge q t.current_state) e (stay t.current_state))

  pub Moved-reply :
      (host : Host) (t : Tcb) (c : Control) (seq acked : ℕ)
      → Moved id from s
      → Moved id from (reply host t c seq acked s).stack
  unfolding Moved get_tcb reply
  Moved-reply host t c seq acked h = h

  get-destroy_own :
      (t : Tcb)
      → (get_tcb id (destroy_own t s) ≡ none) ⊎ (get_tcb id (destroy_own t s) ≡ get_tcb id s)
  unfolding destroy_own destroy_connection Connections.destroy_connection get_tcb
  get-destroy_own t = elim (Option-cases (lookup (key t.src_address t.dst_address) s.connections)) [
    | inl absent ↦ inr (ground (arith, absent))
    | inr (other, there) ↦ ground (arith, there, find_socket-destroy_socket s.sockets other id)
  ]

  Steps-destroy_own : (t : Tcb) → Moved id from s → Steps id from (destroy_own t s)
  unfolding Moved
  Steps-destroy_own t (t', found, e) = elim (get-destroy_own t) [
    | inl gone ↦ inl gone
    | inr same ↦ inr (t', same ∙ found, e)
  ]

Moved-finish_with :
    (host : Host) (id : ℕ) (from to : TcpState) (s : TcpStack) (t : Tcb)
    → id ≢ 0
    → Edge from to
    → Moved id from (finish_with host id to s t)
unfolding finish_with set_state
Moved-finish_with host id from to s t h e =
    Moved-put_tcb id from (reply host t ack_only t.snd.nxt t.rcv.nxt s).stack (set_state to t) h e

-- A segment in `SYN_SENT` takes the block along an arrow of that state.
pub syn_sent_segment-Moved :
    (host : Host) (id : ℕ) (packet : TcpPacketView) (s : TcpStack) (tcb : Tcb)
    → id ≢ 0
    → get_tcb id s ≡ some tcb
    → tcb.current_state ≡ TcpState.syn_sent
    → Moved id TcpState.syn_sent (syn_sent_segment host id packet s tcb).stack
unfolding syn_sent_segment set_state
syn_sent_segment-Moved host id packet s tcb h found state =
    let kept = Moved-stay id TcpState.syn_sent s tcb found state in
    let wrong = View.ack packet && not (View.ack_num_ntoh packet == tcb.snd.nxt) in
    let both = set_state TcpState.established (acked_syn_seen packet tcb) in
    let one = set_state TcpState.syn_received (syn_seen packet tcb) in
    elim (Bool-cases (View.rst packet)) [
      | inl r ↦
          elim (Bool-cases
            (View.ack packet && not (not (View.ack_num_ntoh packet == tcb.snd.nxt)))) [
              | inl a ↦
                  rw (r, a)
                    (Moved-put_tcb id TcpState.syn_sent s (set_state TcpState.closed tcb) h refused)
              | inr a ↦ rw (r, a) kept
            ]
      | inr r ↦ elim (Bool-cases wrong) [
        | inl w ↦
            rw (r, w)
              (Moved-reply id TcpState.syn_sent s host tcb rst_only (View.ack_num_ntoh packet) 0
                kept)
        | inr w ↦ elim (Bool-cases (View.syn packet && View.ack packet)) [
          | inl b ↦
              rw (r, w, b)
                (Moved-reply id TcpState.syn_sent (put_tcb id both s) host both ack_only
                  both.snd.nxt both.rcv.nxt (Moved-put_tcb id TcpState.syn_sent s both h opened))
          | inr b ↦ elim (Bool-cases (View.syn packet)) [
            | inl y ↦
                rw (r, w, b, y)
                  (Moved-reply id TcpState.syn_sent (put_tcb id one s) host one syn_ack one.snd.iss
                    one.rcv.nxt (Moved-put_tcb id TcpState.syn_sent s one h crossed))
            | inr y ↦ rw (r, w, b, y) kept
          ]
        ]
      ]
    ]

-- A segment in `FIN_WAIT_1` takes the block along an arrow of that state, or removes it.
pub fin_wait_1_segment-Steps :
    (host : Host) (id : ℕ) (packet : TcpPacketView) (s : TcpStack) (tcb : Tcb)
    → id ≢ 0
    → get_tcb id s ≡ some tcb
    → tcb.current_state ≡ TcpState.fin_wait_1
    → Steps id TcpState.fin_wait_1 (fin_wait_1_segment host id packet s tcb).stack
unfolding fin_wait_1_segment set_state
fin_wait_1_segment-Steps host id packet s tcb h found state =
    let from = TcpState.fin_wait_1 in
    let counted = fin_counted packet tcb in
    let closed = finish_with host id TcpState.closed s counted in
    elim (Bool-cases (View.ack packet && View.ack_num_ntoh packet == tcb.snd.nxt)) [
      | inl a ↦ elim (Bool-cases (View.fin packet)) [
        | inl f ↦
            rw (a, f)
              (Steps-destroy_own id from closed counted
                (Moved-finish_with host id from TcpState.closed s counted h fin_both))
        | inr f ↦
            rw (a, f)
              (inr (Moved-put_tcb id from s (set_state TcpState.fin_wait_2 tcb) h fin_acked))
      ]
      | inr a ↦ elim (Bool-cases (View.fin packet)) [
        | inl f ↦
            rw (a, f)
              (inr (Moved-finish_with host id from TcpState.closing s counted h fin_crossed))
        | inr f ↦ rw (a, f) (inr (Moved-stay id from s tcb found state))
      ]
    ]

-- A segment in `FIN_WAIT_2` leaves the block in its state, closes it, or removes it.
pub fin_wait_2_segment-Steps :
    (host : Host) (id : ℕ) (packet : TcpPacketView) (s : TcpStack) (tcb : Tcb)
    → id ≢ 0
    → get_tcb id s ≡ some tcb
    → tcb.current_state ≡ TcpState.fin_wait_2
    → Steps id TcpState.fin_wait_2 (fin_wait_2_segment host id packet s tcb).stack
unfolding fin_wait_2_segment
fin_wait_2_segment-Steps host id packet s tcb h found state =
    let from = TcpState.fin_wait_2 in
    let counted = fin_wait_2_counted packet tcb in
    elim (Bool-cases (View.fin packet)) [
      | inl f ↦ rw f (
          Steps-destroy_own id from (finish_with host id TcpState.closed s counted) counted
            (Moved-finish_with host id from TcpState.closed s counted h fin_second))
      | inr f ↦ rw f (inr (Moved-stay id from s tcb found state))
    ]

-- A segment in `CLOSING` or `LAST_ACK` leaves the block in its state, closes it, or removes it.
pub last_ack_segment-Steps :
    (id : ℕ) (packet : TcpPacketView) (s : TcpStack) (tcb : Tcb)
    → id ≢ 0
    → get_tcb id s ≡ some tcb
    → (tcb.current_state ≡ TcpState.closing) ⊎ (tcb.current_state ≡ TcpState.last_ack)
    → Steps id tcb.current_state (last_ack_segment id packet s tcb).stack
unfolding last_ack_segment set_state
last_ack_segment-Steps id packet s tcb h found state =
    let from = tcb.current_state in
    let closed = set_state TcpState.closed tcb in
    let edge : Edge from TcpState.closed = elim state [
      | inl e ↦ subst (λ q. Edge q TcpState.closed) (sym e) closing_acked
      | inr e ↦ subst (λ q. Edge q TcpState.closed) (sym e) last_acked
    ] in
    elim (Bool-cases (View.ack packet && View.ack_num_ntoh packet == tcb.snd.nxt)) [
      | inl a ↦ rw a (
          Steps-destroy_own id from (put_tcb id closed s) tcb
            (Moved-put_tcb id from s closed h edge))
      | inr a ↦ rw a (inr (Moved-stay id from s tcb found refl))
    ]
