-- ===== src/Connect/Phases.antt =====
-- The phases of a client's connection in rdma/01_basic-client-server.
use mytests.Base.{
  ◌&&◌, ℕ, Bool, true, false, Option, none, some, List, [], ◌∷◌, ◌==◌, if◌then◌else◌, ◌≡◌, ◌+◌,
}
use mytests.Connect.Calls.{
  Completion, received, sent, EventType, addr_resolved, route_resolved, established, disconnected,
}
use mytests.Connect.Server.{Step, event, completion}
use mytests.Connect.Client.{Connection, Client}
use mytests.Connect.Accounts.{disconnects, Held}

-- The phases, with whether the receive and the send have completed.
pub data Phase : Type 0 where
  idle resolved over : Phase
  routed : (got : Bool) → Phase
  linked : (got out : Bool) → Phase

unfoldable pub phase_event : Phase → EventType → Option Phase
phase_event idle addr_resolved = some resolved
phase_event resolved route_resolved = some (routed false)
phase_event (routed got) established = some (linked got false)
phase_event (linked true true) disconnected = some over
phase_event _ _ = none

-- The peer may send as soon as the client has asked for the connection.
unfoldable pub phase_completion : Phase → Completion → Option Phase
phase_completion (routed false) (received id) = some (routed true)
phase_completion (linked false out) (received id) = some (linked true out)
phase_completion (linked got false) (sent id) = some (linked got true)
phase_completion _ _ = none

unfoldable pub phase_step : ℕ → Phase → Step → Option Phase
unfolding phase_event phase_completion
phase_step id p (event e) = if e.id == id then phase_event p e.event else none
phase_step id p (completion c) = phase_completion p c

unfoldable pub phase_steps : ℕ → Phase → List Step → Option Phase
unfolding phase_step
phase_steps id p [] = some p
phase_steps id p (st ∷ steps) = elim (phase_step id p st) [
  | none ↦ none
  | some p' ↦ phase_steps id p' steps
]

abbrev pub count : Bool → ℕ
count true = 1
count false = 0

-- The connection that the client has, the ids that are live, and how often it has disconnected.
unfoldable pub context_of : ℕ → Phase → Option Connection
context_of id idle = none
context_of id resolved = some (record { id = id; num_completions = 0 })
context_of id (routed got) = some (record { id = id; num_completions = count got })
context_of id (linked got out) = some (record { id = id; num_completions = count got + count out })
context_of id over = none

unfoldable pub live_of : ℕ → Phase → List ℕ
live_of id idle = []
live_of id resolved = id ∷ []
live_of id (routed got) = id ∷ []
live_of id (linked got out) = id ∷ []
live_of id over = []

unfoldable pub disconnects_of : Phase → ℕ
disconnects_of (linked got out) = count (got && out)
disconnects_of over = 1
disconnects_of _ = 0

unfoldable pub is_over : Phase → Bool
is_over over = true
is_over _ = false

-- Before the first event no context is built.
abbrev pub IsFresh : Phase → Option ℕ → Type 0
IsFresh idle s_ctx = s_ctx ≡ none
IsFresh _ s_ctx = Unit

-- A client in this phase.
pub record Matches (id : ℕ) (p : Phase) (s : Client) : Type 0 where
  pub context : s.context ≡ context_of id p
  pub held : Held (live_of id p) s.device.log
  pub left : disconnects s.device.log ≡ disconnects_of p
  pub first : IsFresh p s.device.s_ctx
