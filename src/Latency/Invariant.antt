-- ===== src/Latency/Invariant.antt =====
-- What holds in every state of test_latency of c2c-lat/c2c-lat.cc.
use mytests.Base.{
  ℕ, zero, suc, Bool, true, false, ◌≤◌, ◌≡◌, refl, sym, arith, inl, inr, Bool-cases, ◌==◌, ==_iff,
}
use mathlib.Core.Path.{subst}
use mytests.Latency.Defs.{
  Peer, test_stop, store_one, exchange_one, store_stopped, helper_end, Main, await_one, store_zero,
  exchange_zero, store_stop, await_stopped, unblock, join, joined, State, peer_step, next_round,
  main_step, started, peer_moves, main_moves, Steps, done, then_step,
}

-- The helper has not been told to stop.
abbrev pub IsRunning : Peer → Type 0
IsRunning store_stopped = ⊥
IsRunning helper_end = ⊥
IsRunning _ = Unit

-- The token while the helper is to stop: 2 once it has.
abbrev pub Stopping : Peer → ℕ → Type 0
Stopping helper_end token = token ≡ 2
Stopping _ token = token ≡ 1

abbrev pub IsEnded : Peer → Type 0
IsEnded helper_end = Unit
IsEnded _ = ⊥

-- The helper and the token, by the place of the main thread.
abbrev pub Fits : Main → Peer → ℕ → Type 0
Fits await_stopped peer token = Stopping peer token
Fits unblock peer token = Stopping peer token
Fits join peer token = IsEnded peer × (token ≡ 2)
Fits joined peer token = IsEnded peer × (token ≡ 2)
Fits _ peer token = IsRunning peer × (token ≡ 0)

pub record IsGood (s : State) : Type 0 where
  pub bit : s.shared ≤ 1
  pub fits : Fits s.main s.peer s.stop_token

abbrev pub at_state : Peer → Main → ℕ → ℕ → State
at_state peer main shared token = record {
  peer = peer;
  main = main;
  shared = shared;
  stop_token = token;
}

-- A step of the helper keeps what it was told.
record Runs (m : Main) (t : State) : Type 0 where
  bit : t.shared ≤ 1
  running : IsRunning t.peer
  token : t.stop_token ≡ 0
  same : t.main ≡ m

peer-Runs :
    (strong : Bool) (p : Peer) (m : Main) (x token : ℕ)
    → x ≤ 1
    → IsRunning p
    → token ≡ 0
    → Runs m (peer_step strong (at_state p m x token))
unfolding peer_step
peer-Runs strong test_stop m x token b h e =
    let zero_token : (token == 0) ≡ true = ground (arith, e) in
    rw (zero_token) (record { bit = b; running = tt; token = e; same = refl })
peer-Runs strong store_one m x token b h e = record {
  bit = omega arith;
  running = tt;
  token = e;
  same = refl;
}
peer-Runs true exchange_one m x token b h e = elim (Bool-cases (x == 0)) [
  | inl f ↦ rw (f) (record { bit = omega arith; running = tt; token = e; same = refl })
  | inr f ↦ rw (f) (record { bit = b; running = tt; token = e; same = refl })
]
peer-Runs false exchange_one m x token b h e = record {
  bit = b;
  running = tt;
  token = e;
  same = refl;
}
peer-Runs strong store_stopped m x token b h e = absurd h
peer-Runs strong helper_end m x token b h e = absurd h

record Stops (m : Main) (t : State) : Type 0 where
  bit : t.shared ≤ 1
  stopping : Stopping t.peer t.stop_token
  same : t.main ≡ m

peer-Stops :
    (strong : Bool) (p : Peer) (m : Main) (x token : ℕ)
    → x ≤ 1
    → Stopping p token
    → Stops m (peer_step strong (at_state p m x token))
unfolding peer_step
peer-Stops strong test_stop m x token b e =
    let some_token : (token == 0) ≡ false = ground (arith, e) in
    rw (some_token) (record { bit = b; stopping = e; same = refl })
peer-Stops strong store_one m x token b e = record { bit = omega arith; stopping = e; same = refl }
peer-Stops true exchange_one m x token b e = elim (Bool-cases (x == 0)) [
  | inl f ↦ rw (f) (record { bit = omega arith; stopping = e; same = refl })
  | inr f ↦ rw (f) (record { bit = b; stopping = e; same = refl })
]
peer-Stops false exchange_one m x token b e = record { bit = b; stopping = e; same = refl }
peer-Stops strong store_stopped m x token b e = record { bit = b; stopping = refl; same = refl }
peer-Stops strong helper_end m x token b e = record { bit = b; stopping = e; same = refl }

IsGood-as :
    (m : Main) (t : State) → t.main ≡ m → t.shared ≤ 1 → Fits m t.peer t.stop_token → IsGood t
IsGood-as m t e b f = record {
  bit = b;
  fits = subst (λ (n : Main). Fits n t.peer t.stop_token) (sym e) f;
}

pub ended : (p : Peer) → IsEnded p → p ≡ helper_end
ended helper_end h = refl
ended test_stop h = absurd h
ended store_one h = absurd h
ended exchange_one h = absurd h
ended store_stopped h = absurd h

peer-IsGood :
    (strong : Bool) (p : Peer) (m : Main) (x token : ℕ)
    → x ≤ 1
    → Fits m p token
    → IsGood (peer_step strong (at_state p m x token))
unfolding peer_step
peer-IsGood strong p await_one x token b (h, e) =
    let r = peer-Runs strong p await_one x token b h e in
    IsGood-as await_one _ r.same r.bit (r.running, r.token)
peer-IsGood strong p (store_zero left) x token b (h, e) =
    let r = peer-Runs strong p (store_zero left) x token b h e in
    IsGood-as (store_zero left) _ r.same r.bit (r.running, r.token)
peer-IsGood strong p (exchange_zero left) x token b (h, e) =
    let r = peer-Runs strong p (exchange_zero left) x token b h e in
    IsGood-as (exchange_zero left) _ r.same r.bit (r.running, r.token)
peer-IsGood strong p store_stop x token b (h, e) =
    let r = peer-Runs strong p store_stop x token b h e in
    IsGood-as store_stop _ r.same r.bit (r.running, r.token)
peer-IsGood strong p await_stopped x token b h =
    let r = peer-Stops strong p await_stopped x token b h in
    IsGood-as await_stopped _ r.same r.bit r.stopping
peer-IsGood strong p unblock x token b h =
    let r = peer-Stops strong p unblock x token b h in IsGood-as unblock _ r.same r.bit r.stopping
peer-IsGood strong p join x token b (h, e) =
    subst (λ (q : Peer). IsGood (peer_step strong (at_state q join x token))) (sym (ended p h))
      (record { bit = b; fits = (tt, e) })
peer-IsGood strong p joined x token b (h, e) =
    subst (λ (q : Peer). IsGood (peer_step strong (at_state q joined x token))) (sym (ended p h))
      (record { bit = b; fits = (tt, e) })

main-IsGood :
    (more : ℕ) (busy_loop strong : Bool) (p : Peer) (m : Main) (x token : ℕ)
    → x ≤ 1
    → Fits m p token
    → IsGood (main_step more busy_loop strong (at_state p m x token))
unfolding main_step next_round
main-IsGood more busy_loop strong p await_one x token b h = elim (Bool-cases (x == 0)) [
  | inl e ↦ rw (e) (record { bit = b; fits = h })
  | inr e ↦ rw (e) (record { bit = b; fits = h })
]
main-IsGood more busy_loop strong p (store_zero left) x token b h = record {
  bit = omega arith;
  fits = h;
}
main-IsGood more busy_loop false p (exchange_zero left) x token b h = record { bit = b; fits = h }
main-IsGood more busy_loop true p (exchange_zero left) x token b h = elim (Bool-cases (x == 1)) [
  | inl e ↦ rw (e) (next left busy_loop)
  | inr e ↦ rw (e) (record { bit = b; fits = h })
]
  where
    next :
        (left : ℕ) (busy_loop : Bool) → IsGood (at_state p (next_round more busy_loop left) 0 token)
    next zero true = record { bit = omega arith; fits = h }
    next zero false = record { bit = omega arith; fits = h }
    next (suc left) busy_loop = record { bit = omega arith; fits = h }
main-IsGood more busy_loop strong p store_stop x token b (h, e) = record {
  bit = b;
  fits = told p h;
}
  where
    told : (p : Peer) → IsRunning p → Stopping p 1
    told test_stop h = refl
    told store_one h = refl
    told exchange_one h = refl
    told store_stopped h = absurd h
    told helper_end h = absurd h
main-IsGood more busy_loop strong p await_stopped x token b h = elim (Bool-cases (token == 2)) [
  | inl e ↦ rw (e) (record { bit = b; fits = stopped p token h ((==_iff token 2).0 e) })
  | inr e ↦ rw (e) (record { bit = b; fits = h })
]
  where
    stopped : (p : Peer) (token : ℕ) → Stopping p token → token ≡ 2 → IsEnded p × (token ≡ 2)
    stopped helper_end token h e = (tt, e)
    stopped test_stop token h e = absurd (omega (arith, h, e))
    stopped store_one token h e = absurd (omega (arith, h, e))
    stopped exchange_one token h e = absurd (omega (arith, h, e))
    stopped store_stopped token h e = absurd (omega (arith, h, e))
main-IsGood more busy_loop strong p unblock x token b h = record { bit = omega arith; fits = h }
main-IsGood more busy_loop strong p join x token b (h, e) =
    subst (λ (q : Peer). IsGood (main_step more busy_loop strong (at_state q join x token)))
      (sym (ended p h)) (record { bit = b; fits = (tt, e) })
main-IsGood more busy_loop strong p joined x token b h = record { bit = b; fits = h }

-- In every state that the two threads get to, in whatever order they make their accesses: the shared
-- variable is 0 or 1, the helper runs until the main thread has stored 1 into the token, and when the main
-- thread sees 2 there and joins it, the helper has made its last access.
pub Steps-IsGood :
    (more : ℕ) (busy_loop : Bool) (s t : State) → Steps more busy_loop s t → IsGood s → IsGood t
Steps-IsGood more busy_loop s t (done _) g = g
Steps-IsGood more busy_loop s u (then_step _ t _ (peer_moves strong _) rest) g =
    Steps-IsGood more busy_loop t u rest
      (peer-IsGood strong s.peer s.main s.shared s.stop_token g.bit g.fits)
Steps-IsGood more busy_loop s u (then_step _ t _ (main_moves strong _) rest) g =
    Steps-IsGood more busy_loop t u rest
      (main-IsGood more busy_loop strong s.peer s.main s.shared s.stop_token g.bit g.fits)

pub started-IsGood : IsGood started
started-IsGood = record { bit = omega arith; fits = (tt, refl) }
