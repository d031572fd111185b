-- ===== src/Workload/Tests.antt =====
-- The addresses of main.cpp, and its first iteration on a host.
use tiny_cp.Base.{◌≡◌, List, [], ◌∷◌, none}
use tiny_cp.Socket.{recv}
use tiny_cp.Samples.{host}
use tiny_cp.Workload.{message, recv_size, set_up}
use tiny_cp.Workload.Waiting.{Action, perform, workload_waits}

abbrev actions : List Action
actions =
    Action.sends (set_up host).socket_a message ∷ Action.round ∷ Action.round ∷ Action.round ∷ []

workload_waits_example :
    (recv (set_up host).socket_b recv_size (perform host actions (set_up host).stack) ≡ none)
    × ((perform host actions (set_up host).stack).net.tun_out ≡ [])
    × ((perform host actions (set_up host).stack).net.loopback_packet_queue ≡ [])
workload_waits_example = workload_waits host actions recv_size
