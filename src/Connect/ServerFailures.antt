-- ===== src/Connect/ServerFailures.antt =====
-- server.c of rdma/01_basic-client-server passes over no failure.
use mytests.Base.{ℕ, Bool, List, ◌≡◌}
use mytests.Connect.Calls.{
  Device, Event, Result, Answers, failed, EventType, connect_request, established, disconnected,
}
use mytests.Connect.Server.{Server, close_connection, Step, event, completion}
use mytests.Connect.Server
use mytests.Connect.Failures.{IsClean, IsCareful}
use mytests.Base.{◌≢◌}
use mathlib.Core.List.{Memᴰ}

-- The events that the server does not expect.
abbrev pub IsUnexpected : EventType → Type 0
IsUnexpected connect_request = ⊥
IsUnexpected established = ⊥
IsUnexpected disconnected = ⊥
IsUnexpected _ = Unit

-- Why the server may die although no call has failed: an event that it does not expect, a completion with an
-- error, or connection requests of two ibv_contexts.
pub data Reason (steps : List Step) : Type 0 where
  unexpected : (e : Event) → Memᴰ (event e) steps → IsUnexpected e.event → Reason steps
  failed_work : Memᴰ (completion failed) steps → Reason steps
  second_context :
      (e f : Event)
      → Memᴰ (event e) steps
      → Memᴰ (event f) steps
      → e.event ≡ connect_request
      → f.event ≡ connect_request
      → e.verbs ≢ f.verbs
      → Reason steps

abbrev pub server_device : Server → Device
server_device s = s.device

abbrev device_of : Server × Bool → Device
device_of (s, ends) = s.device

module _ (steps : List Step) (answers : Answers) where
  -- The steps have a connection request of the ibv_context `ctx`.
  abbrev IsRequested : ℕ → Type 0
  IsRequested ctx =
      (e : Event) × Memᴰ (event e) steps × (e.event ≡ connect_request) × (e.verbs ≡ ctx)

  abbrev IsGood : Device → Type 0
  IsGood = IsClean (Reason steps) IsRequested answers

  abbrev pub Careful {ℓ} : {A : Type ℓ} → (A → Device) → Result A → Type 0
  Careful = IsCareful (Reason steps) IsRequested answers
