-- ===== src/Connect/Live.antt =====
-- The connections that the peers of a server have open, and the account that it keeps of them, in
-- rdma/01_basic-client-server.
use mytests.Base.{not, ◌&&◌, ℕ, Option, none, some, List, [], ◌∷◌, ◌==◌, if◌then◌else◌, ◌≡◌, ◌⊎◌}
use mytests.Connect.Calls.{
  Device, failed, received, sent, other, EventType, addr_resolved, route_resolved, connect_request,
  established, disconnected, unknown, Event,
}
use mytests.Connect.Server.{is_live, forget, Step, event, completion}
use mytests.Connect.Accounts.{contexts, Held}

-- The open connections after a step of peers that follow the protocol, and `none` for any other step: a
-- request has a fresh id and the one ibv_context, and all else is of an open connection.
unfoldable pub live_event : ℕ → List ℕ → Event → EventType → Option (List ℕ)
live_event verbs live e connect_request =
    if not (is_live e.id live) && (verbs == e.verbs) then some (e.id ∷ live) else none
live_event verbs live e established = if is_live e.id live then some live else none
live_event verbs live e disconnected = if is_live e.id live then some (forget e.id live) else none
live_event verbs live e addr_resolved = none
live_event verbs live e route_resolved = none
live_event verbs live e unknown = none

unfoldable pub live_step : ℕ → List ℕ → Step → Option (List ℕ)
unfolding live_event
live_step verbs live (event e) = live_event verbs live e e.event
live_step verbs live (completion failed) = none
live_step verbs live (completion (received id)) = if is_live id live then some live else none
live_step verbs live (completion (sent id)) = some live
live_step verbs live (completion (other id)) = some live

unfoldable pub live_steps : ℕ → List ℕ → List Step → Option (List ℕ)
unfolding live_step
live_steps verbs live [] = some live
live_steps verbs live (st ∷ steps) = elim (live_step verbs live st) [
  | none ↦ none
  | some live' ↦ live_steps verbs live' steps
]

-- The context is built once, when it is built.
pub record Accounted (verbs : ℕ) (live : List ℕ) (d : Device) : Type 0 where
  pub held : Held live d.log
  pub context :
      ((d.s_ctx ≡ none) × (contexts d.log ≡ 0)) ⊎ ((d.s_ctx ≡ some verbs) × (contexts d.log ≡ 1))
