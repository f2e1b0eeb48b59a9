-- ===== src/Connect/Server.antt =====
-- server.c of rdma/01_basic-client-server.
use mytests.Base.{none, ℕ, Bool, true, false, List, [], ◌∷◌, ◌==◌, if◌then◌else◌}
use mytests.Connect.Calls.{
  send_region, recv_region, qp, conn, buffer, mr, acquire, release, post_send, accept, destroy_id,
  create_event_channel, create_id, bind_addr, listen, destroy_event_channel, Answers, Device,
  Result, ok, died, crashed, ◌>>=◌, note, attempt, build_context, register_memory, post_receives,
  Completion, failed, received, sent, other, addr_resolved, route_resolved, connect_request,
  established, disconnected, unknown, Event,
}

-- The device, and the ids whose `context` is a connection that is not freed.
pub record Server : Type 0 where
  pub device : Device
  pub live : List ℕ

unfoldable pub is_live : ℕ → List ℕ → Bool
is_live id [] = false
is_live id (j ∷ live) = let rest = is_live id live in if id == j then true else rest

unfoldable pub forget : ℕ → List ℕ → List ℕ
forget id [] = []
forget id (j ∷ live) = let rest = forget id live in if id == j then rest else j ∷ rest

unfoldable pub on_connect_request : Answers → Event → Server → Result (Server × Bool)
unfolding attempt note build_context register_memory post_receives
on_connect_request answers e s = do
  d₁ ← build_context answers e.verbs s.device
  d₂ ← attempt answers (acquire qp e.id) d₁
  d₃ ← register_memory answers e.id (note (acquire conn e.id) d₂)
  d₄ ← post_receives answers e.id d₃
  d₅ ← attempt answers (accept e.id) d₄
  ok (record { device = d₅; live = e.id ∷ s.live }, false)

unfoldable pub on_connection : Answers → ℕ → Server → Result (Server × Bool)
unfolding attempt is_live
on_connection answers id s =
    if is_live id s.live
    then (do d ← attempt answers (post_send id) s.device; ok (record s { device = d }, false))
    else crashed

-- The calls of on_disconnect, in which nothing is tested.
unfoldable pub close_connection : ℕ → Device → Device
unfolding note
close_connection id d =
    let qp_gone = note (release qp id) d in
    let mrs_gone =
      note (release (mr recv_region) id) (note (release (mr send_region) id) qp_gone) in
    let freed =
      note (release (buffer recv_region) id) (note (release (buffer send_region) id) mrs_gone) in
    note (destroy_id id) (note (release conn id) freed)

unfoldable pub on_disconnect : ℕ → Server → Result (Server × Bool)
unfolding close_connection is_live forget
on_disconnect id s =
    if is_live id s.live
    then ok (record { device = close_connection id s.device; live = forget id s.live }, false)
    else crashed

unfoldable pub on_event : Answers → Event → Server → Result (Server × Bool)
unfolding on_connect_request on_connection on_disconnect
on_event answers e s = elim e.event [
  | connect_request ↦ on_connect_request answers e s
  | established ↦ on_connection answers e.id s
  | disconnected ↦ on_disconnect e.id s
  | addr_resolved ↦ died s.device.log
  | route_resolved ↦ died s.device.log
  | unknown ↦ died s.device.log
]

-- The server prints what it receives, and so reads the connection's buffer.
unfoldable pub on_completion : Completion → Server → Result Server
unfolding is_live
on_completion failed s = died s.device.log
on_completion (received id) s = if is_live id s.live then ok s else crashed
on_completion (sent id) s = ok s
on_completion (other id) s = ok s

-- The event loop of main and the thread of poll_cq take turns: a step is an event or a completion.
pub data Step : Type 0 where
  event : Event → Step
  completion : Completion → Step

-- The steps of a server: the `Bool` says whether the event loop has ended.
unfoldable pub server_loop : Answers → List Step → Server → Result (Server × Bool)
unfolding on_event on_completion
server_loop answers [] s = ok (s, false)
server_loop answers (event e ∷ steps) s = do
  (s', ends) ← on_event answers e s
  if ends then ok (s', true) else server_loop answers steps s'
server_loop answers (completion c ∷ steps) s = do
  s' ← on_completion c s
  server_loop answers steps s'

-- `main`, with the id of the listener. The steps end when rdma_get_cm_event fails.
unfoldable pub server_main : Answers → ℕ → List Step → Result Server
unfolding attempt note server_loop
server_main answers listener steps = do
  d₁ ← attempt answers create_event_channel (record { s_ctx = none; log = [] })
  d₂ ← attempt answers create_id d₁
  d₃ ← attempt answers bind_addr d₂
  d₄ ← attempt answers listen d₃
  (s, ends) ← server_loop answers steps (record { device = d₄; live = [] })
  ok (record s { device = note destroy_event_channel (note (destroy_id listener) s.device) })
