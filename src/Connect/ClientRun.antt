-- ===== src/Connect/ClientRun.antt =====
-- A run of the client of rdma/01_basic-client-server keeps to the phases of its connection.
use mytests.Base.{
  ℕ, Bool, true, false, none, some, List, [], ◌∷◌, if◌then◌else◌, ◌≡◌, inl, inr, refl, arith, ap,
  ◌∙◌, Bool-cases, Option-cases,
}
use mytests.Connect.Calls.{Answers, Result, ok, died, crashed, ◌>>=◌}
use mytests.Connect.Server.{Step, event, completion, is_live}
use mytests.Connect.Client.{Client, on_completion, client_loop}
use mytests.Connect.Accounts.{holds, is_sound, disconnects}
use mytests.Connect.Opening.{AllSucceed, succeed}
use mytests.Connect.Phases.{
  Phase, idle, over, phase_event, phase_completion, phase_step, phase_steps, context_of, live_of,
  disconnects_of, is_over, Matches,
}
use mytests.Connect.ClientSteps.{step, Goes, resume, step-Goes}

-- Nothing follows the end of the event loop.
no_more : (id : ℕ) (st : Step) (p' : Phase) → ¬ (phase_step id over st ≡ some p')
unfolding phase_step phase_event phase_completion
no_more id (event e) p' l = ground (arith, l)
no_more id (completion c) p' l = ground (arith, l)

abbrev rest_of : Answers → List Step → Client × Bool → Result (Client × Bool)
rest_of answers steps (s, ends) = if ends then ok (s, true) else client_loop answers steps s

client_loop-step :
    (answers : Answers) (st : Step) (steps : List Step) (s : Client)
    → client_loop answers (st ∷ steps) s ≡ (step answers st s >>= rest_of answers steps)
unfolding client_loop
client_loop-step answers (event e) steps s = refl
client_loop-step answers (completion c) steps s = continues (on_completion c s)
  where
    continues :
        (r : Result Client)
        → (r >>= client_loop answers steps)
          ≡ ((r >>= λ s'. ok (s', false)) >>= rest_of answers steps)
    continues (ok s') = refl
    continues (died log) = refl
    continues crashed = refl

all_done :
    (id : ℕ) (steps : List Step) (p p' : Phase)
    → is_over p ≡ true
    → phase_steps id p steps ≡ some p'
    → some p ≡ some p'
unfolding phase_steps is_over
all_done id [] p p' h l = l
all_done id (st ∷ steps) over p' h l = elim (Option-cases (phase_step id over st)) [
  | inl n ↦ absurd (ground (arith, rw (phase_steps, n) at l))
  | inr (p₁, n) ↦ absurd (no_more id st p₁ n)
]
all_done id (st ∷ steps) _ p' h l = ground (arith, h)

steps-Goes :
    (id : ℕ) (steps : List Step) (p p' : Phase) (s : Client)
    → is_over p ≡ false
    → phase_steps id p steps ≡ some p'
    → Matches id p s
    → Goes id p' (client_loop succeed steps s)
unfolding client_loop phase_steps
steps-Goes id [] p p' s eo l m = resume l (record { after = s; result = rw (eo) refl; matches = m })
steps-Goes id (st ∷ steps) p p' s eo l m = elim (Option-cases (phase_step id p st)) [
  | inl n ↦ absurd (ground (arith, rw (phase_steps, n) at l))
  | inr (p₁, n) ↦
      let g = step-Goes id p p₁ st s n m in
      let l₁ = rw (phase_steps, n) at l in
      let behind =
        client_loop-step succeed st steps s
        ∙ ap (λ (r : Result (Client × Bool)). r >>= rest_of succeed steps) g.result in
      elim (Bool-cases (is_over p₁)) [
        | inl h ↦
            resume (all_done id steps p₁ p' h l₁)
              (record { after = g.after; result = behind ∙ rw (h) refl; matches = g.matches })
        | inr h ↦
            let k = steps-Goes id steps p₁ p' g.after h l₁ g.matches in
            record { after = k.after; result = behind ∙ rw (h) k.result; matches = k.matches }
      ]
]

-- When every call succeeds and the events and completions are those of one connection, the receive
-- completing at any time after the client asked for the connection and the send at any time after it was
-- established, the client keeps to its phases: it has the connection and its resources while that is open,
-- none acquired or released twice, its count is that of the completions, it has called rdma_disconnect
-- once when both have completed, in either order, and not at all before, and at the end it has released
-- everything and left the event loop.
pub client_loop-Matches :
    (answers : Answers) (id : ℕ) (steps : List Step) (p : Phase)
    → AllSucceed answers
    → phase_steps id idle steps ≡ some p
    → let start : Client = record { device = record { s_ctx = none; log = [] }; context = none } in
      (s : Client) × (client_loop answers steps start ≡ ok (s, is_over p)) × Matches id p s
unfolding holds is_sound disconnects is_live context_of live_of disconnects_of is_over
client_loop-Matches answers id steps p h l =
    let start : Client = record { device = record { s_ctx = none; log = [] }; context = none } in
    let m : Matches id idle start = record {
      context = refl;
      held = record { held = λ r j. refl; sound = refl };
      left = refl;
      first = refl;
    } in
    let g = steps-Goes id steps idle p start refl l m in
    let same : answers ≡ succeed = λ i log c. h log c i in
    (g.after, ap (λ (t : Answers). client_loop t steps start) same ∙ g.result, g.matches)
