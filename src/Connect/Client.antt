-- ===== src/Connect/Client.antt =====
-- client.c of rdma/01_basic-client-server.
use mytests.Base.{ℕ, suc, Bool, true, false, Option, none, some, List, [], ◌∷◌, ◌==◌, if◌then◌else◌}
use mytests.Connect.Calls.{
  qp, conn, acquire, post_send, resolve_route, connect, disconnect, getaddrinfo,
  create_event_channel, create_id, resolve_addr, destroy_event_channel, Answers, Device, Result, ok,
  died, crashed, ◌>>=◌, note, attempt, build_context, register_memory, post_receives, Completion,
  failed, received, sent, other, addr_resolved, route_resolved, connect_request, established,
  disconnected, unknown, Event,
}
use mytests.Connect.Server.{close_connection, Step, event, completion}

-- struct connection, as far as the resources are not in the log.
pub record Connection : Type 0 where
  pub id : ℕ
  pub num_completions : ℕ

-- The device, and the connection that is the `context` of the only id.
pub record Client : Type 0 where
  pub device : Device
  pub context : Option Connection

unfoldable pub on_addr_resolved : Answers → Event → Client → Result (Client × Bool)
unfolding attempt note build_context register_memory post_receives
on_addr_resolved answers e s = do
  d₁ ← build_context answers e.verbs s.device
  d₂ ← attempt answers (acquire qp e.id) d₁
  let connection : Connection = record { id = e.id; num_completions = 0 }
  d₃ ← register_memory answers e.id (note (acquire conn e.id) d₂)
  d₄ ← post_receives answers e.id d₃
  d₅ ← attempt answers (resolve_route e.id) d₄
  ok (record { device = d₅; context = some connection }, false)

unfoldable pub on_route_resolved : Answers → ℕ → Client → Result (Client × Bool)
unfolding attempt
on_route_resolved answers id s = do
  d ← attempt answers (connect id) s.device
  ok (record s { device = d }, false)

unfoldable pub on_connection : Answers → Client → Result (Client × Bool)
unfolding attempt
on_connection answers s = elim s.context [
  | none ↦ crashed
  | some c ↦ do d ← attempt answers (post_send c.id) s.device; ok (record s { device = d }, false)
]

-- The calls are those of the server's on_disconnect.
unfoldable pub on_disconnect : Client → Result (Client × Bool)
unfolding close_connection
on_disconnect s = elim s.context [
  | none ↦ crashed
  | some c ↦ ok (record { device = close_connection c.id s.device; context = none }, true)
]

unfoldable pub on_event : Answers → Event → Client → Result (Client × Bool)
unfolding on_addr_resolved on_route_resolved on_connection on_disconnect
on_event answers e s = elim e.event [
  | addr_resolved ↦ on_addr_resolved answers e s
  | route_resolved ↦ on_route_resolved answers e.id s
  | established ↦ on_connection answers s
  | disconnected ↦ on_disconnect s
  | connect_request ↦ died s.device.log
  | unknown ↦ died s.device.log
]

-- `if (++conn->num_completions == 2) rdma_disconnect(conn->id);`
unfoldable pub count_completion : Client → Result Client
unfolding note
count_completion s = elim s.context [
  | none ↦ crashed
  | some c ↦
      let counted : Client = record s {
        context = some (record c { num_completions = suc c.num_completions });
      } in
      if suc c.num_completions == 2
      then ok (record counted { device = note (disconnect c.id) s.device })
      else ok counted
]

unfoldable pub on_completion : Completion → Client → Result Client
unfolding count_completion
on_completion failed s = died s.device.log
on_completion (received id) s = count_completion s
on_completion (sent id) s = count_completion s
on_completion (other id) s = died s.device.log

-- The steps of a client: the `Bool` says whether the event loop has ended.
unfoldable pub client_loop : Answers → List Step → Client → Result (Client × Bool)
unfolding on_event on_completion
client_loop answers [] s = ok (s, false)
client_loop answers (event e ∷ steps) s = do
  (s', ends) ← on_event answers e s
  if ends then ok (s', true) else client_loop answers steps s'
client_loop answers (completion c ∷ steps) s = do
  s' ← on_completion c s
  client_loop answers steps s'

-- `main`, from its first call on. The steps end when rdma_get_cm_event fails.
unfoldable pub client_main : Answers → List Step → Result Client
unfolding attempt note client_loop
client_main answers steps = do
  d₁ ← attempt answers getaddrinfo (record { s_ctx = none; log = [] })
  d₂ ← attempt answers create_event_channel d₁
  d₃ ← attempt answers create_id d₂
  d₄ ← attempt answers resolve_addr d₃
  (s, ends) ← client_loop answers steps (record { device = d₄; context = none })
  ok (record s { device = note destroy_event_channel s.device })
