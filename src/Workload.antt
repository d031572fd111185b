-- ===== src/Workload.antt =====
-- main.cpp: two sockets of one stack, bound and registered with each other, and a loop that sends
-- on the one and reads from the other. Its output and its timing are left out.
pub mod Quiet
pub mod Waiting
mod Tests
use tiny_cp.Base.{ℕ, List, [], ◌∷◌, ◌++◌}
use tiny_cp.Text.{codes}
use tiny_cp.Address.{Ipv4Address}
use tiny_cp.Address.Parse.{from_string}
use tiny_cp.Stack.State.{Host, TcpStack, new_stack}
use tiny_cp.Stack.Close.{register_connection}
use tiny_cp.Socket.{TcpSocket, bind}

unfoldable pub addr_a : Ipv4Address
addr_a = from_string (codes "10.0.0.2:8080")

unfoldable pub addr_b : Ipv4Address
addr_b = from_string (codes "10.0.0.3:9090")

pub record Workload : Type 0 where
  pub socket_a : TcpSocket
  pub socket_b : TcpSocket
  pub stack : TcpStack

-- `main` up to its loop.
unfoldable pub set_up : Host → Workload
set_up host =
    let a = bind host addr_a new_stack in
    let b = bind host addr_b a.stack in
    let first = register_connection host addr_a addr_b a.socket.socket_id b.stack in
    let second = register_connection host addr_b addr_a b.socket.socket_id first.stack in
    record { socket_a = a.socket; socket_b = b.socket; stack = second.stack }

-- The literal with its last byte, 0.
abbrev pub message : List ℕ
message = codes "Hello from Socket A via automatic TcpStack dirty blocks!" ++ (0 ∷ [])

abbrev pub recv_size : ℕ
recv_size = 128
