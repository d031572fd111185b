-- ===== src/Socket/Accepting.antt =====
-- The order in which `accept` gives out the children of a listener.
use tiny_cp.Base.{ℕ, zero, suc, ◌≡◌, ◌≢◌, refl, ap, none, some, List, [], ◌∷◌, take}
use tiny_cp.Tcb.{Tcb, TcpState}
use tiny_cp.Stack.State.{TcpStack, get_tcb, put_tcb}
use tiny_cp.Stack.Lookups.{get-put_tcb}
use tiny_cp.Socket.{TcpSocket, accept, take_child}

-- The ids that up to `n` calls give one after the other, up to a call that waits.
pub accepted : ℕ → TcpSocket → TcpStack → List ℕ
accepted zero k s = []
accepted (suc n) k s = elim (accept k s) [
  | none ↦ []
  | some out ↦ out.socket.socket_id ∷ accepted n k out.stack
]

accept_of_listener :
    (k : TcpSocket) (s : TcpStack) (tcb : Tcb)
    → get_tcb k.socket_id s ≡ some tcb
    → tcb.current_state ≡ TcpState.listen
    → accept k s ≡ take_child k.socket_id tcb tcb.accept_queue s
unfolding accept
accept_of_listener k s tcb found state = rw (accept, found, state) refl

accepted_queue :
    (n : ℕ) (k : TcpSocket) (s : TcpStack) (tcb : Tcb) (q : List ℕ)
    → k.socket_id ≢ 0
    → get_tcb k.socket_id s ≡ some tcb
    → tcb.current_state ≡ TcpState.listen
    → tcb.accept_queue ≡ q
    → accepted n k s ≡ take n q
unfolding accepted take_child
accepted_queue zero k s tcb q h found state e = refl
accepted_queue (suc n) k s tcb [] h found state e =
    rw (accepted, accept_of_listener k s tcb found state, e) refl
accepted_queue (suc n) k s tcb (child_id ∷ rest) h found state e =
    let left : Tcb = record tcb { accept_queue = rest } in
    let again =
      accepted_queue n k (put_tcb k.socket_id left s) left rest h (get-put_tcb k.socket_id left s h)
        state refl in
    rw (accepted, accept_of_listener k s tcb found state, e) (ap (◌∷◌ child_id) again)

-- Calls of `accept` on a listener give the children of its queue one by one, the first first, until
-- the queue is empty; then the next call waits.
pub accept_in_order :
    (n : ℕ) (k : TcpSocket) (s : TcpStack) (tcb : Tcb)
    → k.socket_id ≢ 0
    → get_tcb k.socket_id s ≡ some tcb
    → tcb.current_state ≡ TcpState.listen
    → accepted n k s ≡ take n tcb.accept_queue
accept_in_order n k s tcb h found state =
    accepted_queue n k s tcb tcb.accept_queue h found state refl
