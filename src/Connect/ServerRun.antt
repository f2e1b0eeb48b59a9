-- ===== src/Connect/ServerRun.antt =====
-- A run of the server of rdma/01_basic-client-server keeps its account.
use mytests.Base.{
  ℕ, Bool, true, false, none, some, List, [], ◌∷◌, if◌then◌else◌, ◌≡◌, inl, inr, refl, arith, ap,
  sym, ◌∙◌, Option-cases,
}
use mathlib.Core.Path.{subst}
use mytests.Connect.Calls.{Answers, Result, ok, died, crashed, ◌>>=◌}
use mytests.Connect.Server.{Server, is_live, on_completion, Step, event, completion, server_loop}
use mytests.Connect.Accounts.{holds, is_sound, contexts}
use mytests.Connect.Opening.{AllSucceed, succeed}
use mytests.Connect.Live.{live_step, live_steps, Accounted}
use mytests.Connect.ServerSteps.{step, Goes, stays-Goes, step-Goes}

-- The rest of the loop behind a step.
abbrev rest_of : Answers → List Step → Server × Bool → Result (Server × Bool)
rest_of answers steps (s, ends) = if ends then ok (s, true) else server_loop answers steps s

server_loop-step :
    (answers : Answers) (st : Step) (steps : List Step) (s : Server)
    → server_loop answers (st ∷ steps) s ≡ (step answers st s >>= rest_of answers steps)
unfolding server_loop
server_loop-step answers (event e) steps s = refl
server_loop-step answers (completion c) steps s = continues (on_completion c s)
  where
    continues :
        (r : Result Server)
        → (r >>= server_loop answers steps)
          ≡ ((r >>= λ s'. ok (s', false)) >>= rest_of answers steps)
    continues (ok s') = refl
    continues (died log) = refl
    continues crashed = refl

steps-Goes :
    (verbs : ℕ) (steps : List Step) (s : Server) (live live' : List ℕ)
    → s.live ≡ live
    → live_steps verbs live steps ≡ some live'
    → Accounted verbs live s.device
    → Goes verbs live' (server_loop succeed steps s)
unfolding server_loop live_steps
steps-Goes verbs [] s live live' e l a =
    stays-Goes verbs s live' (e ∙ ground (arith, l))
      (subst (λ (t : List ℕ). Accounted verbs t s.device) (sym e) a)
steps-Goes verbs (st ∷ steps) s live live' e l a = elim (Option-cases (live_step verbs live st)) [
  | inl n ↦ absurd (ground (arith, rw (live_steps, n) at l))
  | inr (live₁, n) ↦
      let a' = subst (λ (t : List ℕ). Accounted verbs t s.device) (sym e) a in
      let g = step-Goes verbs st s live₁ (ap (λ (t : List ℕ). live_step verbs t st) e ∙ n) a' in
      let h =
        steps-Goes verbs steps g.after live₁ live' g.lives (rw (live_steps, n) at l) g.accounted in
      record {
        after = h.after;
        result =
            server_loop-step succeed st steps s
            ∙ ap (λ (r : Result (Server × Bool)). r >>= rest_of succeed steps) g.result
            ∙ h.result;
        lives = h.lives;
        accounted = h.accounted;
      }
]

-- When every call succeeds and the peers follow the protocol, requests, messages and ends of any number of
-- connections in any order, the server goes on. Its live connections are those that are open, the resources
-- it holds are the queue pairs, structures, buffers and registrations of just these, none of them was
-- acquired while held or released while not, and the context was built once or, before a request, not at all.
pub server_loop-Accounted :
    (answers : Answers) (verbs : ℕ) (steps : List Step) (live : List ℕ)
    → AllSucceed answers
    → live_steps verbs [] steps ≡ some live
    → let start : Server = record { device = record { s_ctx = none; log = [] }; live = [] } in
      (s : Server) × (server_loop answers steps start ≡ ok (s, false))
      × (s.live ≡ live)
      × Accounted verbs live s.device
unfolding holds is_sound contexts is_live
server_loop-Accounted answers verbs steps live h l =
    let start : Server = record { device = record { s_ctx = none; log = [] }; live = [] } in
    let a : Accounted verbs [] start.device = record {
      held = record { held = λ r id. refl; sound = refl };
      context = inl (refl, refl);
    } in
    let g = steps-Goes verbs steps start [] live refl l a in
    let same : answers ≡ succeed = λ i log c. h log c i in
    (g.after, ap (λ (t : Answers). server_loop t steps start) same ∙ g.result, g.lives, g.accounted)
