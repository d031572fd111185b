-- ===== src/System.antt =====
-- The whole library at work: the daemon of TcpStack.cpp's `lifecycle_` and the threads that call
-- TcpSocket.cpp, as steps that follow one another in any order. A step is one packet, one pass over
-- the marked blocks or one call, which the model takes as a unit.
pub mod Safety
pub mod Rounds
pub mod Hearing
pub mod Transfer
pub mod Handshake
pub mod ThreeWay
mod Tests
use tiny_cp.Base.{ℕ, List, []}
use tiny_cp.Address.{Ipv4Address, IsEndpoint}
use tiny_cp.Tun.{Poll}
use tiny_cp.Stack.State.{Host, TcpStack, new_stack}
use tiny_cp.Stack.Send.{process_dirty_blocks, check_retransmissions}
use tiny_cp.Stack.Handlers.{Outcome, returns, waits, stack_of, resume}
use tiny_cp.Stack.Input.{process_incoming_packet, read_incoming_packets}
use tiny_cp.Socket.{
  TcpSocket, bind, listen, start_connect, after_accept, after_send, after_recv, close,
}

-- A call of a thread of the application.
pub data Call (host : Host) : TcpStack → TcpStack → Type 0 where
  binds :
      (addr : Ipv4Address) → IsEndpoint addr → (s : TcpStack) → Call host s (bind host addr s).stack
  listens : (k : TcpSocket) (s : TcpStack) → Call host s (listen k s)
  connects :
      (k : TcpSocket) (addr : Ipv4Address)
      → IsEndpoint addr
      → (s : TcpStack) → Call host s (start_connect host addr k s).stack
  accepts : (k : TcpSocket) (s : TcpStack) → Call host s (after_accept k s)
  sends : (k : TcpSocket) (bytes : List ℕ) (s : TcpStack) → Call host s (after_send k bytes s)
  recvs : (k : TcpSocket) (n : ℕ) (s : TcpStack) → Call host s (after_recv k n s)
  closes : (k : TcpSocket) (s : TcpStack) → Call host s (close host k s)

-- The same daemon over another stack.
unfoldable pub over : TcpStack → Outcome → Outcome
over s (returns n _) = returns n s
over s (waits id payload _) = waits id payload s

-- The daemon takes its batch of packets out of the loopback queue.
unfoldable pub take_batch : TcpStack → TcpStack
take_batch s = record s { net = record (s.net) { loopback_packet_queue = [] } }

-- The state is the stack, with what the daemon does: it has returned from its last step, or it waits
-- in the write of a payload.
pub data Step (host : Host) : Outcome → Outcome → Type 0 where
  counts : (n : ℕ) (s : TcpStack) → Step host (returns n s) (returns 0 s)
  flushes :
      (n : ℕ) (s : TcpStack) → Step host (returns n s) (returns 0 (process_dirty_blocks host s))
  takes : (n : ℕ) (s : TcpStack) → Step host (returns n s) (returns 0 (take_batch s))
  arrives :
      (packet : List ℕ) (n : ℕ) (s : TcpStack)
      → Step host (returns n s) (process_incoming_packet host packet s)
  polls :
      (poll : Poll) (n : ℕ) (s : TcpStack)
      → Step host (returns n s) (read_incoming_packets host poll s)
  sweeps :
      (n : ℕ) (s : TcpStack) → Step host (returns n s) (returns 0 (check_retransmissions host s))
  resumes :
      (id : ℕ) (payload : List ℕ) (s : TcpStack)
      → Step host (waits id payload s) (resume host id payload s)
  calls : (o : Outcome) {s : TcpStack} → Call host (stack_of o) s → Step host o (over s o)
  ticks : (o : Outcome) (now : ℕ) → Step host o (over (record (stack_of o) { clock = now }) o)

-- Any number of steps.
pub data Run (host : Host) : Outcome → Outcome → Type 0 where
  here : (o : Outcome) → Run host o o
  step : {a b c : Outcome} → Step host a b → Run host b c → Run host a c

-- What can come of a stack as constructed.
pub Reachable : Host → Outcome → Type 0
Reachable host o = Run host (returns 0 new_stack) o

pub join : {host : Host} {a b c : Outcome} → Run host a b → Run host b c → Run host a c
join (here o) rest = rest
join (step first run) rest = step first (join run rest)
