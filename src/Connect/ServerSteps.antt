-- ===== src/Connect/ServerSteps.antt =====
-- Each step of the server of rdma/01_basic-client-server keeps its account.
use mytests.Base.{
  ℕ, Bool, true, false, none, some, List, ◌∷◌, if◌then◌else◌, ◌≡◌, ◌⊎◌, inl, inr, refl, arith, sym,
}
use mathlib.Core.Path.{subst}
use mytests.Connect.Calls.{
  Call, Device, note, Answers, attempt, post_send, accept, Result, ok, ◌>>=◌, register_memory,
  post_receives, failed, received, sent, other, EventType, addr_resolved, route_resolved,
  connect_request, established, disconnected, unknown, Event,
}
use mytests.Connect.Server.{
  Server, is_live, forget, on_connect_request, on_connection, close_connection, on_disconnect,
  on_event, on_completion, Step, event, completion,
}
use mytests.Connect.Accounts.{
  contexts, opened, context_calls, opened-Held, closed-Held, context_calls-Held, plain-Held,
  IsPlain,
}
use mytests.Connect.Opening.{succeed, IsFor, build_context_lem}
use mytests.Connect.Live.{live_event, live_step, Accounted}

-- One step of the server.
abbrev pub step : Answers → Step → Server → Result (Server × Bool)
step answers (event e) s = on_event answers e s
step answers (completion c) s = on_completion c s >>= λ s'. ok (s', false)

pub record Goes (verbs : ℕ) (live : List ℕ) (r : Result (Server × Bool)) : Type 0 where
  pub after : Server
  pub result : r ≡ ok (after, false)
  pub lives : after.live ≡ live
  pub accounted : Accounted verbs live after.device

-- The device after a request.
abbrev opened_device : ℕ → ℕ → Device → Device
opened_device verbs id d = record {
  s_ctx = some verbs;
  log = accept id ∷ opened id (context_calls verbs d.s_ctx d.log);
}

opened-Accounted :
    (verbs id : ℕ) (live : List ℕ) (d : Device)
    → is_live id live ≡ false
    → Accounted verbs live d
    → Accounted verbs (id ∷ live) (opened_device verbs id d)
unfolding contexts context_calls
opened-Accounted verbs id live d fresh a = record {
  held =
      plain-Held (accept id) (id ∷ live) _ tt
        (opened-Held id live _ fresh (context_calls-Held verbs d.s_ctx live d.log a.held));
  context = inr (refl, once a.context);
}
  where
    once :
        ((d.s_ctx ≡ none) × (contexts d.log ≡ 0)) ⊎ ((d.s_ctx ≡ some verbs) × (contexts d.log ≡ 1))
        → contexts (context_calls verbs d.s_ctx d.log) ≡ 1
    once (inl (e, n)) = rw (e, n) refl
    once (inr (e, n)) = rw (e, n) refl

on_connect_request_lem :
    (e : Event) (s : Server)
    → IsFor e.verbs s.device.s_ctx
    → on_connect_request succeed e s
      ≡ ok (record { device = opened_device e.verbs e.id s.device; live = e.id ∷ s.live }, false)
unfolding on_connect_request attempt note register_memory post_receives
on_connect_request_lem e s h = rw (build_context_lem e.verbs s.device.s_ctx s.device.log h)

IsFor-Accounted :
    {verbs : ℕ} {live : List ℕ} {d : Device} → Accounted verbs live d → IsFor verbs d.s_ctx
IsFor-Accounted a = elim a.context [ inl (e, n) ↦ inl e | inr (e, n) ↦ inr e ]

-- A call after which the same connections are live.
plain-Accounted :
    (c : Call) (verbs : ℕ) (live : List ℕ) (d : Device)
    → IsPlain c
    → contexts (c ∷ d.log) ≡ contexts d.log
    → Accounted verbs live d
    → Accounted verbs live (note c d)
unfolding note
plain-Accounted c verbs live d p e a = record {
  held = plain-Held c live d.log p a.held;
  context = rw (e) a.context;
}

closed-Accounted :
    (verbs id : ℕ) (live : List ℕ) (d : Device)
    → is_live id live ≡ true
    → Accounted verbs live d
    → Accounted verbs (forget id live) (close_connection id d)
unfolding close_connection note contexts
closed-Accounted verbs id live d here a = record {
  held = closed-Held id live d.log here a.held;
  context = a.context;
}

request_facts :
    (verbs : ℕ) (live live' : List ℕ) (e : Event)
    → live_event verbs live e connect_request ≡ some live'
    → (is_live e.id live ≡ false) × (verbs ≡ e.verbs) × (e.id ∷ live ≡ live')
unfolding live_event
request_facts verbs live live' e l = ground (arith, l)

open_facts :
    (b : Bool) {live live' : List ℕ}
    → (if b then some live else none) ≡ some live'
    → (b ≡ true) × (live ≡ live')
open_facts b l = ground (arith, l)

request-Goes :
    (verbs : ℕ) (e : Event) (s : Server) (live' : List ℕ)
    → (is_live e.id s.live ≡ false) × (verbs ≡ e.verbs) × (e.id ∷ s.live ≡ live')
    → Accounted verbs s.live s.device
    → Goes verbs live' (on_connect_request succeed e s)
request-Goes verbs e s live' (fresh, v, l) a =
    let a' = subst (λ (v : ℕ). Accounted v s.live s.device) v a in
    let o = opened-Accounted e.verbs e.id s.live s.device fresh a' in
    record {
      after = record { device = opened_device e.verbs e.id s.device; live = e.id ∷ s.live };
      result = on_connect_request_lem e s (IsFor-Accounted a');
      lives = l;
      accounted =
          subst (λ (v : ℕ). Accounted v live' (opened_device e.verbs e.id s.device)) (sym v)
            (subst (λ (t : List ℕ). Accounted e.verbs t (opened_device e.verbs e.id s.device)) l o);
    }

established-Goes :
    (verbs id : ℕ) (s : Server) (live' : List ℕ)
    → (is_live id s.live ≡ true) × (s.live ≡ live')
    → Accounted verbs s.live s.device
    → Goes verbs live' (on_connection succeed id s)
unfolding on_connection attempt contexts
established-Goes verbs id s live' (here, l) a = record {
  after = record s { device = note (post_send id) s.device };
  result = rw (here) refl;
  lives = l;
  accounted =
      subst (λ (t : List ℕ). Accounted verbs t (note (post_send id) s.device)) l
        (plain-Accounted (post_send id) verbs s.live s.device tt refl a);
}

disconnected-Goes :
    (verbs id : ℕ) (s : Server) (live' : List ℕ)
    → (is_live id s.live ≡ true) × (forget id s.live ≡ live')
    → Accounted verbs s.live s.device
    → Goes verbs live' (on_disconnect id s)
unfolding on_disconnect
disconnected-Goes verbs id s live' (here, l) a = record {
  after = record { device = close_connection id s.device; live = forget id s.live };
  result = rw (here) refl;
  lives = l;
  accounted =
      subst (λ (t : List ℕ). Accounted verbs t (close_connection id s.device)) l
        (closed-Accounted verbs id s.live s.device here a);
}

event-Goes :
    (verbs id v : ℕ) (t : EventType) (s : Server) (live' : List ℕ)
    → live_event verbs s.live (record { event = t; id = id; verbs = v }) t ≡ some live'
    → Accounted verbs s.live s.device
    → Goes verbs live' (on_event succeed (record { event = t; id = id; verbs = v }) s)
unfolding live_event on_event
event-Goes verbs id v connect_request s live' l a =
    request-Goes verbs (record { event = connect_request; id = id; verbs = v }) s live'
      (request_facts verbs s.live live' (record { event = connect_request; id = id; verbs = v }) l)
      a
event-Goes verbs id v established s live' l a = established-Goes verbs id s live' (open_facts _ l) a
event-Goes verbs id v disconnected s live' l a =
    disconnected-Goes verbs id s live' (open_facts _ l) a
event-Goes verbs id v addr_resolved s live' l a = ground (arith, l)
event-Goes verbs id v route_resolved s live' l a = ground (arith, l)
event-Goes verbs id v unknown s live' l a = ground (arith, l)

pub stays-Goes :
    (verbs : ℕ) (s : Server) (live' : List ℕ)
    → s.live ≡ live'
    → Accounted verbs s.live s.device
    → Goes verbs live' (ok (s, false))
stays-Goes verbs s live' l a = record {
  after = s;
  result = refl;
  lives = l;
  accounted = subst (λ (t : List ℕ). Accounted verbs t s.device) l a;
}

pub step-Goes :
    (verbs : ℕ) (st : Step) (s : Server) (live' : List ℕ)
    → live_step verbs s.live st ≡ some live'
    → Accounted verbs s.live s.device
    → Goes verbs live' (step succeed st s)
unfolding live_step on_completion
step-Goes verbs (event e) s live' l a = event-Goes verbs e.id e.verbs e.event s live' l a
step-Goes verbs (completion failed) s live' l a = ground (arith, l)
step-Goes verbs (completion (received id)) s live' l a =
    let (here, l') = open_facts (is_live id s.live) l in rw (here) (stays-Goes verbs s live' l' a)
step-Goes verbs (completion (sent id)) s live' l a = stays-Goes verbs s live' (ground (arith, l)) a
step-Goes verbs (completion (other id)) s live' l a = stays-Goes verbs s live' (ground (arith, l)) a
