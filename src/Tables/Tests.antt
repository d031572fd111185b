-- ===== src/Tables/Tests.antt =====
-- The theorems on the tables, at small ones.
use tiny_cp.Base.{◌≢◌, [], ◌∷◌, arith}
use tiny_cp.Address.{Ipv4Address}
use tiny_cp.Tcb.{TcpState, new_tcb}
use tiny_cp.Tables.Sockets.{SocketTable}
use tiny_cp.Tables.Connections.{ConnectionTable, key}

abbrev here : Ipv4Address
here = record { address = 0x0A000002; port = 80 }

abbrev there : Ipv4Address
there = record { address = 0x0A000003; port = 49152 }

abbrev two_sockets : SocketTable
two_sockets = record {
  next_id = 3;
  sockets =
      (1, new_tcb TcpState.listen here here) ∷ (2, new_tcb TcpState.established here there) ∷ [];
}

abbrev connections : ConnectionTable
connections = (key there here, 2) ∷ []

three_nonzero : two_sockets.next_id ≢ 0
three_nonzero = λ e. omega arith
