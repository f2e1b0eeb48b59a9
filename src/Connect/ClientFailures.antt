-- ===== src/Connect/ClientFailures.antt =====
-- client.c of rdma/01_basic-client-server passes over no failure.
use mytests.Base.{
  suc, ℕ, Bool, true, false, none, List, [], ◌∷◌, ◌==◌, if◌then◌else◌, inl, inr, refl, Bool-cases,
  Option-cases,
}
use mytests.Connect.Calls.{
  Device, Result, note, Answers, post_send, resolve_route, connect, getaddrinfo,
  create_event_channel, create_id, resolve_addr, ok, Completion, failed, received, sent, other,
  EventType, addr_resolved, route_resolved, established, disconnected,
}
use mytests.Connect.Server.{Step, event, completion}
use mytests.Connect.Client.{
  Client, Connection, on_addr_resolved, on_route_resolved, count_completion, client_loop,
  client_main,
}
use mytests.Connect.Client
use mytests.Connect.Failures.{
  is_tested, is_clean, rule, IsClean, IsCareful, >>=-IsCareful, attempt_then, opening-IsCareful,
  close_connection-IsClean,
}

abbrev pub client_device : Client → Device
client_device s = s.device

abbrev device_of : Client × Bool → Device
device_of (s, ends) = s.device

-- Here a death without a failed call has any reason.
abbrev AnyReason : Type 0
AnyReason = Unit

abbrev AnyContext : ℕ → Type 0
AnyContext ctx = Unit

abbrev IsGood : Answers → Device → Type 0
IsGood = IsClean AnyReason AnyContext

abbrev pub Careful {ℓ} : {A : Type ℓ} → Answers → (A → Device) → Result A → Type 0
Careful answers = IsCareful AnyReason AnyContext answers

client_event-IsCareful :
    (answers : Answers) (id v : ℕ) (t : EventType) (s : Client)
    → IsGood answers s.device
    → Careful answers device_of
        (Client.on_event answers (record { event = t; id = id; verbs = v }) s)
unfolding Client.on_event Client.on_addr_resolved Client.on_route_resolved Client.on_connection
    Client.on_disconnect
client_event-IsCareful answers id v addr_resolved s h =
    opening-IsCareful AnyReason AnyContext answers device_of v id s.device _ tt (λ ctx _ _. tt) h
      (λ d₄ h₄.
        attempt_then AnyReason AnyContext answers device_of (resolve_route id) d₄ _ h₄
          (λ d₅ h₅. h₅))
client_event-IsCareful answers id v route_resolved s h =
    attempt_then AnyReason AnyContext answers device_of (connect id) s.device _ h (λ d h'. h')
client_event-IsCareful answers id v established s h = elim (Option-cases s.context) [
  | inl e ↦ rw (e) tt
  | inr (c, e) ↦ rw (e) (
      attempt_then AnyReason AnyContext answers device_of (post_send c.id) s.device _ h
        (λ d h'. h'))
]
client_event-IsCareful answers id v disconnected s h = elim (Option-cases s.context) [
  | inl e ↦ rw (e) tt
  | inr (c, e) ↦ rw (e) (close_connection-IsClean AnyReason AnyContext answers c.id s.device h)
]
client_event-IsCareful answers id v _ s h = rule tt h.clean

count_completion-IsCareful :
    (answers : Answers) (s : Client)
    → IsGood answers s.device
    → Careful answers client_device (count_completion s)
unfolding count_completion is_clean is_tested note
count_completion-IsCareful answers s h = elim (Option-cases s.context) [
  | inl e ↦ rw (e) tt
  | inr (c, e) ↦ elim (Bool-cases (suc c.num_completions == 2)) [
    | inl k ↦ rw (e, k) (record { clean = h.clean; built = h.built })
    | inr k ↦ rw (e, k) h
  ]
]

client_completion-IsCareful :
    (answers : Answers) (c : Completion) (s : Client)
    → IsGood answers s.device
    → Careful answers client_device (Client.on_completion c s)
unfolding Client.on_completion
client_completion-IsCareful answers failed s h = rule tt h.clean
client_completion-IsCareful answers (received id) s h = count_completion-IsCareful answers s h
client_completion-IsCareful answers (sent id) s h = count_completion-IsCareful answers s h
client_completion-IsCareful answers (other id) s h = rule tt h.clean

client_loop-IsCareful :
    (answers : Answers) (steps : List Step) (s : Client)
    → IsGood answers s.device
    → Careful answers device_of (client_loop answers steps s)
unfolding client_loop
client_loop-IsCareful answers [] s h = h
client_loop-IsCareful answers (event e ∷ steps) s h =
    >>=-IsCareful AnyReason AnyContext answers device_of device_of (Client.on_event answers e s) _
      (client_event-IsCareful answers e.id e.verbs e.event s h)
      (goes_on (λ s' h'. client_loop-IsCareful answers steps s' h'))
  where
    goes_on :
        ((s' : Client)
          → IsGood answers s'.device
          → Careful answers device_of (client_loop answers steps s'))
        → (a : Client × Bool) → IsGood answers (device_of a)
        → Careful answers device_of (if a.1 then ok (a.0, true) else client_loop answers steps a.0)
    goes_on later (s', true) h' = h'
    goes_on later (s', false) h' = later s' h'
client_loop-IsCareful answers (completion c ∷ steps) s h =
    >>=-IsCareful AnyReason AnyContext answers client_device device_of (Client.on_completion c s) _
      (client_completion-IsCareful answers c s h)
      (λ s' h'. client_loop-IsCareful answers steps s' h')

-- Whatever calls of the verbs library fail and whatever events and completions come, as long as none of them
-- concerns a connection that is not there, the client passes over
-- no failure of a call that it tests: if main returns, all of these have succeeded, and if the program dies,
-- either all have, or the last call has failed and the ones before have succeeded.
pub client_main-IsCareful :
    (answers : Answers) (steps : List Step)
    → Careful answers client_device (client_main answers steps)
unfolding client_main is_clean is_tested note
client_main-IsCareful answers steps =
    attempt_then AnyReason AnyContext answers client_device getaddrinfo
      (record { s_ctx = none; log = [] }) _ (record { clean = refl; built = λ ctx e. tt })
      (λ d₁ h₁.
        attempt_then AnyReason AnyContext answers client_device create_event_channel d₁ _ h₁
          (λ d₂ h₂.
            attempt_then AnyReason AnyContext answers client_device create_id d₂ _ h₂ (λ d₃ h₃.
              attempt_then AnyReason AnyContext answers client_device resolve_addr d₃ _ h₃ (λ d₄ h₄.
                >>=-IsCareful AnyReason AnyContext answers device_of client_device
                  (client_loop answers steps (record { device = d₄; context = none })) _
                  (client_loop-IsCareful answers steps (record { device = d₄; context = none }) h₄)
                  (λ a h'. record { clean = h'.clean; built = h'.built })))))
