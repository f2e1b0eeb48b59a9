-- ===== src/Transfer/Loop.antt =====
-- common.c of rdma/03_file-transfer/rdma-file-transfer: the event loop that the client and the server run
-- with their callbacks. The calls of the verbs library and build_context are as in rdma/01_basic-client-server.
use mytests.Base.{ℕ, Bool, true, false, ◌&&◌, Option, none, some, List, [], ◌∷◌, if◌then◌else◌}
use mytests.Connect.Calls.{
  qp, Call, acquire, release, resolve_route, connect, accept, destroy_id, getaddrinfo,
  create_event_channel, create_id, resolve_addr, bind_addr, listen, destroy_event_channel, Answers,
  Device, Result, ok, died, ◌>>=◌, note, attempt, build_context, addr_resolved, route_resolved,
  connect_request, established, disconnected, unknown, Event,
}

-- The device, and what the callbacks keep.
pub record Program (S : Type 0) : Type 0 where
  pub device : Device
  pub app : S

-- s_on_pre_conn_cb, s_on_connect_cb and s_on_disconnect_cb, as rc_init sets them.
pub record Callbacks (S : Type 0) : Type 0 where
  pub on_pre_conn : Option (ℕ → Program S → Result (Program S))
  pub on_connect : Option (ℕ → Program S → Result (Program S))
  pub on_disconnect : Option (ℕ → Program S → Result (Program S))

module _ {S : Type 0} (answers : Answers) (callbacks : Callbacks S) where
  -- A callback that is not NULL is called.
  unfoldable pub call_back :
      Option (ℕ → Program S → Result (Program S)) → ℕ → Program S → Result (Program S)
  call_back none id p = ok p
  call_back (some f) id p = f id p

  -- A tested call, and one that is not.
  unfoldable pub tests : Call → Program S → Result (Program S)
  unfolding attempt
  tests c p = do d ← attempt answers c p.device; ok (record p { device = d })

  unfoldable pub notes : Call → Program S → Program S
  unfolding note
  notes c p = record p { device = note c p.device }

  unfoldable pub build_connection : Event → Program S → Result (Program S)
  unfolding build_context tests
  build_connection e p = do
    d ← build_context answers e.verbs p.device
    tests (acquire qp e.id) (record p { device = d })

  -- One round of the event loop: the program, and whether the connection has ended.
  unfoldable pub handle_event : Event → Program S → Result (Program S × Bool)
  unfolding build_connection call_back tests notes
  handle_event e p = elim e.event [
    | addr_resolved ↦ do
      p₁ ← build_connection e p
      p₂ ← call_back callbacks.on_pre_conn e.id p₁
      p₃ ← tests (resolve_route e.id) p₂
      ok (p₃, false)
    | route_resolved ↦ do p₁ ← tests (connect e.id) p; ok (p₁, false)
    | connect_request ↦ do
      p₁ ← build_connection e p
      p₂ ← call_back callbacks.on_pre_conn e.id p₁
      p₃ ← tests (accept e.id) p₂
      ok (p₃, false)
    | established ↦ do p₁ ← call_back callbacks.on_connect e.id p; ok (p₁, false)
    | disconnected ↦ do
      p₁ ← call_back callbacks.on_disconnect e.id (notes (release qp e.id) p)
      ok (notes (destroy_id e.id) p₁, true)
    | unknown ↦ died p.device.log
  ]

  -- The events end when rdma_get_cm_event fails.
  unfoldable pub event_loop : Bool → List Event → Program S → Result (Program S)
  unfolding handle_event
  event_loop exit_on_disconnect [] p = ok p
  event_loop exit_on_disconnect (e ∷ events) p = do
    (p', gone) ← handle_event e p
    if gone && exit_on_disconnect then ok p' else event_loop exit_on_disconnect events p'

  unfoldable pub rc_client_loop : List Event → Program S → Result (Program S)
  unfolding tests notes event_loop
  rc_client_loop events p = do
    p₁ ← tests getaddrinfo p
    p₂ ← tests create_event_channel p₁
    p₃ ← tests create_id p₂
    p₄ ← tests resolve_addr p₃
    p₅ ← event_loop true events p₄
    ok (notes destroy_event_channel p₅)

  unfoldable pub rc_server_loop : ℕ → List Event → Program S → Result (Program S)
  unfolding tests notes event_loop
  rc_server_loop listener events p = do
    p₁ ← tests create_event_channel p
    p₂ ← tests create_id p₁
    p₃ ← tests bind_addr p₂
    p₄ ← tests listen p₃
    p₅ ← event_loop false events p₄
    ok (notes destroy_event_channel (notes (destroy_id listener) p₅))
