-- ===== src/Stack/Handlers/Ending.antt =====
-- How the handlers of a segment end.
use tiny_cp.Base.{ℕ, none, some, List}
use tiny_cp.Tcb.{Tcb}
use tiny_cp.Stack.State.{TcpStack, Sized, get_tcb}

-- How a handler ends: it returns, or its thread waits in the write of a payload into the receive
-- buffer of a socket, with the stack as it is then.
pub data Outcome : Type 0 where
  returns : ℕ → TcpStack → Outcome
  waits : ℕ → List ℕ → TcpStack → Outcome

abbrev pub done : Sized → Outcome
done r = returns r.size r.stack

-- A handler over the block that `get_tcb` finds; without one it returns 0.
abbrev pub with_tcb : ℕ → TcpStack → (Tcb → Sized) → Sized
with_tcb id s body = elim (get_tcb id s) [
  | none ↦ record { size = 0; stack = s }
  | some tcb ↦ body tcb
]

-- The stack as a handler leaves it, also where its thread waits.
unfoldable pub stack_of : Outcome → TcpStack
stack_of (returns n s) = s
stack_of (waits id payload s) = s
