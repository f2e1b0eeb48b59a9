-- ===== src/Connect/ClientSteps.antt =====
-- Each step of the client of rdma/01_basic-client-server keeps to its phase.
use mytests.Base.{
  ℕ, suc, Bool, true, false, none, some, List, [], ◌∷◌, ◌==◌, if◌then◌else◌, ◌≡◌, inl, inr, refl,
  arith, ◌+◌, sym, ◌∙◌, Bool-cases,
}
use mathlib.Core.Path.{subst}
use mytests.Base.{==_iff}
use mytests.Connect.Calls.{
  Call, Device, note, Answers, attempt, post_send, resolve_route, connect, disconnect, Result, ok,
  ◌>>=◌, register_memory, post_receives, Completion, received, sent, EventType, addr_resolved,
  route_resolved, established, disconnected,
}
use mytests.Connect.Server.{close_connection, Step, event, completion, forget, is_live}
use mytests.Connect.Client.{
  Client, on_addr_resolved, on_route_resolved, on_connection, on_disconnect, on_event,
  count_completion, on_completion,
}
use mytests.Connect.Accounts.{
  disconnects, opened, closed, context_calls, Held, opened-Held, closed-Held, context_calls-Held,
  plain-Held, IsPlain,
}
use mytests.Connect.Opening.{succeed, build_context_lem}
use mytests.Connect.Phases.{
  Phase, idle, resolved, over, routed, linked, phase_event, phase_completion, phase_step,
  context_of, live_of, disconnects_of, is_over, IsFresh, Matches,
}

abbrev pub step : Answers → Step → Client → Result (Client × Bool)
step answers (event e) s = on_event answers e s
step answers (completion c) s = on_completion c s >>= λ s'. ok (s', false)

pub record Goes (id : ℕ) (p : Phase) (r : Result (Client × Bool)) : Type 0 where
  pub after : Client
  pub result : r ≡ ok (after, is_over p)
  pub matches : Matches id p after

abbrev opened_device : ℕ → ℕ → Device → Device
opened_device verbs id d = record {
  s_ctx = some verbs;
  log = resolve_route id ∷ opened id (context_calls verbs d.s_ctx d.log);
}

resolved-Goes :
    (verbs id : ℕ) (s : Client)
    → Matches id idle s
    → Goes id resolved
        (on_addr_resolved succeed (record { event = addr_resolved; id = id; verbs = verbs }) s)
unfolding on_addr_resolved attempt note register_memory post_receives context_of live_of
    disconnects_of is_over is_live disconnects context_calls
resolved-Goes verbs id s m = record {
  after = record {
    device = opened_device verbs id s.device;
    context = some (record { id = id; num_completions = 0 });
  };
  result = rw (build_context_lem verbs s.device.s_ctx s.device.log (inl m.first)) refl;
  matches = record {
    context = refl;
    held =
        plain-Held (resolve_route id) _ _ tt (
          opened-Held id [] _ refl
            (context_calls-Held verbs s.device.s_ctx [] s.device.log m.held));
    left = rw (m.first) m.left;
    first = tt;
  };
}

-- A call that leaves the connection as it is.
called-Matches :
    (id : ℕ) (p p' : Phase) (c : Call) (s : Client)
    → context_of id p ≡ context_of id p'
    → live_of id p ≡ live_of id p'
    → disconnects_of p ≡ disconnects_of p'
    → IsPlain c
    → IsFresh p' s.device.s_ctx
    → disconnects (c ∷ s.device.log) ≡ disconnects s.device.log
    → Matches id p s
    → Matches id p' (record s { device = note c s.device })
unfolding note
called-Matches id p p' c s ec el ed plain fresh same m = record {
  context = m.context ∙ ec;
  held = plain-Held c _ _ plain (subst (λ (t : List ℕ). Held t s.device.log) el m.held);
  left = same ∙ m.left ∙ ed;
  first = fresh;
}

routed-Goes :
    (id : ℕ) (s : Client)
    → Matches id resolved s
    → Goes id (routed false) (on_route_resolved succeed id s)
unfolding on_route_resolved attempt context_of live_of disconnects_of is_over disconnects
routed-Goes id s m = record {
  after = record s { device = note (connect id) s.device };
  result = refl;
  matches = called-Matches id resolved (routed false) (connect id) s refl refl refl tt tt refl m;
}

linked-Goes :
    (id : ℕ) (got : Bool) (s : Client)
    → Matches id (routed got) s
    → Goes id (linked got false) (on_connection succeed s)
unfolding on_connection attempt context_of live_of disconnects_of is_over disconnects
linked-Goes id got s m = record {
  after = record s { device = note (post_send id) s.device };
  result = rw (m.context) refl;
  matches =
      called-Matches id (routed got) (linked got false) (post_send id) s (ground arith) refl
        (ground arith) tt tt refl m;
}

over-Goes : (id : ℕ) (s : Client) → Matches id (linked true true) s → Goes id over (on_disconnect s)
unfolding on_disconnect close_connection note context_of live_of disconnects_of is_over disconnects
    is_live forget
over-Goes id s m = record {
  after = record { device = close_connection id s.device; context = none };
  result = rw (m.context) refl;
  matches = record {
    context = refl;
    held =
        subst (λ (t : List ℕ). Held t (closed id s.device.log)) (ground arith)
          (closed-Held id (id ∷ []) s.device.log (ground arith) m.held);
    left = m.left;
    first = tt;
  };
}

-- A completion counts.
counted-Goes :
    (id n : ℕ) (p p' : Phase) (s : Client)
    → context_of id p ≡ some (record { id = id; num_completions = n })
    → context_of id p' ≡ some (record { id = id; num_completions = suc n })
    → live_of id p ≡ live_of id p'
    → disconnects_of p + (if suc n == 2 then 1 else 0) ≡ disconnects_of p'
    → is_over p' ≡ false
    → IsFresh p' s.device.s_ctx
    → Matches id p s
    → Goes id p' (count_completion s >>= λ s'. ok (s', false))
unfolding count_completion note disconnects
counted-Goes id n p p' s ec ec' el ed eo fresh m = elim (Bool-cases (suc n == 2)) [
  | inl e ↦ record {
    after = record {
      device = note (disconnect id) s.device;
      context = some (record { id = id; num_completions = suc n });
    };
    result = rw (m.context ∙ ec, e, eo) refl;
    matches = record {
      context = sym ec';
      held =
          plain-Held (disconnect id) _ _ tt (subst (λ (t : List ℕ). Held t s.device.log) el m.held);
      left = omega (arith, m.left, rw (e) at ed);
      first = fresh;
    };
  }
  | inr e ↦ record {
    after = record s { context = some (record { id = id; num_completions = suc n }) };
    result = rw (m.context ∙ ec, e, eo) refl;
    matches = record {
      context = sym ec';
      held = subst (λ (t : List ℕ). Held t s.device.log) el m.held;
      left = omega (arith, m.left, rw (e) at ed);
      first = fresh;
    };
  }
]

pub resume :
    {id : ℕ} {p p' : Phase} {r : Result (Client × Bool)}
    → some p ≡ some p'
    → Goes id p r
    → Goes id p' r
resume {id} {p} {p'} {r} e g = subst (λ (q : Phase). Goes id q r) (ground (arith, e)) g

event-Goes :
    (id v : ℕ) (p p' : Phase) (t : EventType) (s : Client)
    → phase_event p t ≡ some p'
    → Matches id p s
    → Goes id p' (on_event succeed (record { event = t; id = id; verbs = v }) s)
unfolding on_event phase_event
event-Goes id v idle p' addr_resolved s l m = resume l (resolved-Goes v id s m)
event-Goes id v resolved p' route_resolved s l m = resume l (routed-Goes id s m)
event-Goes id v (routed got) p' established s l m = resume l (linked-Goes id got s m)
event-Goes id v (linked true true) p' disconnected s l m = resume l (over-Goes id s m)
event-Goes id v _ p' _ s l m = ground (arith, l)

completion-Goes :
    (id : ℕ) (p p' : Phase) (c : Completion) (s : Client)
    → phase_completion p c ≡ some p'
    → Matches id p s
    → Goes id p' (step succeed (completion c) s)
unfolding on_completion phase_completion context_of live_of disconnects_of is_over
completion-Goes id (routed false) p' (received j) s l m =
    resume l (counted-Goes id 0 (routed false) (routed true) s refl refl refl refl refl tt m)
completion-Goes id (linked false false) p' (received j) s l m =
    resume l
      (counted-Goes id 0 (linked false false) (linked true false) s refl refl refl refl refl tt m)
completion-Goes id (linked false true) p' (received j) s l m =
    resume l
      (counted-Goes id 1 (linked false true) (linked true true) s refl refl refl refl refl tt m)
completion-Goes id (linked false false) p' (sent j) s l m =
    resume l
      (counted-Goes id 0 (linked false false) (linked false true) s refl refl refl refl refl tt m)
completion-Goes id (linked true false) p' (sent j) s l m =
    resume l
      (counted-Goes id 1 (linked true false) (linked true true) s refl refl refl refl refl tt m)
completion-Goes id _ p' _ s l m = ground (arith, l)

pub step-Goes :
    (id : ℕ) (p p' : Phase) (st : Step) (s : Client)
    → phase_step id p st ≡ some p'
    → Matches id p s
    → Goes id p' (step succeed st s)
unfolding phase_step
step-Goes id p p' (completion c) s l m = completion-Goes id p p' c s l m
step-Goes id p p' (event e) s l m =
    let (same, l') = this_id (e.id == id) l in
    subst
      (λ (j : ℕ).
        Goes id p' (on_event succeed (record { event = e.event; id = j; verbs = e.verbs }) s))
      (sym ((==_iff e.id id).0 same)) (event-Goes id e.verbs p p' e.event s l' m)
  where
    this_id :
        (b : Bool)
        → (if b then phase_event p e.event else none) ≡ some p'
        → (b ≡ true) × (phase_event p e.event ≡ some p')
    this_id b l = ground (arith, l)
