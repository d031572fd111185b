-- ===== src/Stack/Ports.antt =====
-- `allocate_ephemeral_port`.
pub mod Range
use tiny_cp.Base.{ℕ, zero, suc, ◌+◌, Bool, ◌||◌, ◌==◌, ltb, leb, if◌then◌else◌, u16}
use tiny_cp.Tables.Listeners
use tiny_cp.Stack.State.{TcpStack}

-- One `fetch_add` with the reset behind it: the candidate, and the counter then.
abbrev pub Candidate : Type 0
Candidate = record { port : ℕ; next_port : ℕ }

unfoldable pub next_candidate : ℕ → Candidate
next_candidate next_port =
    if leb 65535 next_port || ltb next_port 49152
    then record { port = 49152; next_port = 49152 }
    else record { port = next_port; next_port = u16 (next_port + 1) }

-- The loop, with the rounds that are left; `is_bound` is `listener_table_.contains`.
unfoldable pub try_ports : ℕ → (ℕ → Bool) → ℕ → Candidate
try_ports zero is_bound next_port = record { port = next_port; next_port = u16 (next_port + 1) }
try_ports (suc rounds) is_bound next_port =
    let c = next_candidate next_port in
    let rest = try_ports rounds is_bound c.next_port in if is_bound c.port then rest else c

abbrev pub Allocated : Type 0
Allocated = record { port : ℕ; stack : TcpStack }

unfoldable pub allocate_ephemeral_port : TcpStack → Allocated
allocate_ephemeral_port s =
    let c = try_ports 16384 (λ port. Listeners.contains port s.listeners s.sockets) s.next_port in
    record { port = c.port; stack = record s { next_port = c.next_port } }
