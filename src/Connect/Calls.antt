-- ===== src/Connect/Calls.antt =====
-- The calls of the verbs library in rdma/01_basic-client-server, and the functions that client.c and server.c
-- share word by word: build_context, register_memory and post_receives.
use mytests.Base.{ℕ, Bool, Option, none, some, List, ◌∷◌, ◌==◌, if◌then◌else◌}

pub data Region : Type 0 where
  send_region recv_region : Region

-- What belongs to one connection: the queue pair, struct connection, and the two buffers with their
-- registrations.
pub data Resource : Type 0 where
  qp conn : Resource
  buffer mr : Region → Resource

-- The calls that the programs make, where `id` names the connection. An `acquire` creates, allocates or
-- registers a resource, a `release` destroys, frees or deregisters it.
pub data Call : Type 0 where
  alloc_pd create_comp_channel create_cq : (verbs : ℕ) → Call
  req_notify_cq create_thread : Call
  getaddrinfo create_event_channel create_id resolve_addr bind_addr listen destroy_event_channel :
      Call
  acquire release : Resource → (id : ℕ) → Call
  post_recv post_send resolve_route connect accept disconnect destroy_id : (id : ℕ) → Call

-- Whether a call succeeds, given the calls before it, the last one first.
abbrev pub Answers : Type 0
Answers = List Call → Call → Bool

-- `s_ctx`, by the ibv_context that it was built for, and the calls made, the last one first.
pub record Device : Type 0 where
  pub s_ctx : Option ℕ
  pub log : List Call

-- How a function ends: normally, in `die`, or in an access to a connection that is not there.
pub data Result {ℓ} (A : Type ℓ) : Type ℓ where
  ok : A → Result A
  died : List Call → Result A
  crashed : Result A

infixl 5 ◌>>=◌
abbrev pub ◌>>=◌ {ℓ κ} : {A : Type ℓ} {B : Type κ} → Result A → (A → Result B) → Result B
ok a >>= f = f a
died log >>= f = died log
crashed >>= f = crashed

-- A call whose result is not looked at.
unfoldable pub note : Call → Device → Device
note c d = record d { log = c ∷ d.log }

-- TEST_Z and TEST_NZ: the program dies when the call fails.
unfoldable pub attempt : Answers → Call → Device → Result Device
unfolding note
attempt answers c d = if answers d.log c then ok (note c d) else died (c ∷ d.log)

unfoldable pub build_context : Answers → ℕ → Device → Result Device
unfolding attempt
build_context answers verbs d = elim d.s_ctx [
  | some ctx ↦ if ctx == verbs then ok d else died d.log
  | none ↦ do
    d₁ ← attempt answers (alloc_pd verbs) (record d { s_ctx = some verbs })
    d₂ ← attempt answers (create_comp_channel verbs) d₁
    d₃ ← attempt answers (create_cq verbs) d₂
    d₄ ← attempt answers req_notify_cq d₃
    attempt answers create_thread d₄
]

unfoldable pub register_memory : Answers → ℕ → Device → Result Device
unfolding attempt note
register_memory answers id d = do
  let d' = note (acquire (buffer recv_region) id) (note (acquire (buffer send_region) id) d)
  d₁ ← attempt answers (acquire (mr send_region) id) d'
  attempt answers (acquire (mr recv_region) id) d₁

unfoldable pub post_receives : Answers → ℕ → Device → Result Device
unfolding attempt
post_receives answers id d = attempt answers (post_recv id) d

-- A work completion with an error, of a receive, of a send, or of something else, by its wr_id.
pub data Completion : Type 0 where
  failed : Completion
  received sent other : (id : ℕ) → Completion

-- The events of the connection manager, each with its id and the ibv_context of that.
pub data EventType : Type 0 where
  addr_resolved route_resolved connect_request established disconnected unknown : EventType

pub record Event : Type 0 where
  pub event : EventType
  pub id : ℕ
  pub verbs : ℕ
