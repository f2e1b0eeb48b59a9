-- ===== src/Connect/Examples.antt =====
-- Runs of the client and of the server of rdma/01_basic-client-server, and the theorems there.
use mytests.Base.{ℕ, ◌≡◌, refl, true, false, not, none, some, List, [], ◌∷◌, length, ◌==◌}
use mytests.Connect.Calls.{
  acquire, qp, Answers, Result, ok, died, note, attempt, build_context, register_memory,
  post_receives, received, sent, EventType, addr_resolved, route_resolved, connect_request,
  established, disconnected,
}
use mytests.Connect.Server.{
  Server, Step, event, completion, server_loop, server_main, is_live, forget, close_connection,
}
use mytests.Connect.Server
use mytests.Connect.Client.{Client, client_loop}
use mytests.Connect.Phases.{
  idle, over, is_over, phase_event, phase_completion, phase_step, phase_steps, Matches,
}
use mytests.Connect.Opening.{succeed}
use mytests.Connect.ClientRun.{client_loop-Matches}
use mytests.Connect.Live.{live_event, live_step, live_steps, Accounted}
use mytests.Connect.ServerRun.{server_loop-Accounted}

abbrev of : EventType → ℕ → Step
of t id = event (record { event = t; id = id; verbs = 7 })

-- The message of the peer arrives before the client has noticed that it is connected.
abbrev client_steps : List Step
client_steps =
    of addr_resolved 1
    ∷ of route_resolved 1
    ∷ completion (received 1)
    ∷ of established 1
    ∷ completion (sent 1)
    ∷ of disconnected 1
    ∷ []

phases : phase_steps 1 idle client_steps ≡ some over
unfolding phase_steps phase_step phase_event phase_completion
phases = refl

client_loop-Matches_example :
    let start : Client = record { device = record { s_ctx = none; log = [] }; context = none } in
    (s : Client) × (client_loop succeed client_steps start ≡ ok (s, true)) × Matches 1 over s
unfolding is_over
client_loop-Matches_example = client_loop-Matches succeed 1 client_steps over (λ log c. refl) phases

-- Two connections, of which the first one ends.
abbrev server_steps : List Step
server_steps =
    of connect_request 1
    ∷ of connect_request 2
    ∷ of established 2
    ∷ of established 1
    ∷ completion (received 1)
    ∷ completion (sent 1)
    ∷ of disconnected 1
    ∷ completion (received 2)
    ∷ []

one_left : live_steps 7 [] server_steps ≡ some (2 ∷ [])
unfolding live_steps live_step live_event is_live forget
one_left = refl

server_loop-Accounted_example :
    let start : Server = record { device = record { s_ctx = none; log = [] }; live = [] } in
    (s : Server) × (server_loop succeed server_steps start ≡ ok (s, false))
    × (s.live ≡ 2 ∷ [])
    × Accounted 7 (2 ∷ []) s.device
server_loop-Accounted_example =
    server_loop-Accounted succeed 7 server_steps (2 ∷ []) (λ log c. refl) one_left

-- The second queue pair cannot be created.
abbrev answers : Answers
answers log (acquire qp id) = not (id == 2)
answers log _ = true

-- The calls that the server has made when it dies.
deaths : Result Server → ℕ
deaths (died log) = length log
deaths _ = 0

dies : deaths (server_main answers 0 server_steps) ≡ 18
unfolding deaths server_main server_loop Server.on_event Server.on_connect_request
    Server.on_connection Server.on_completion Server.on_disconnect close_connection attempt note
    build_context register_memory post_receives is_live forget
dies = refl
