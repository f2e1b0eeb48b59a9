-- ===== src/Latency/Ending.antt =====
-- test_latency of c2c-lat/c2c-lat.cc can end from wherever it is.
use mytests.Base.{ℕ, zero, suc, Bool, true, false, ◌≤◌, ◌≡◌, refl, sym, arith}
use mathlib.Core.Path.{subst}
use mytests.Latency.Defs.{
  Peer, test_stop, store_one, exchange_one, store_stopped, helper_end, Main, await_one, store_zero,
  exchange_zero, store_stop, await_stopped, unblock, join, joined, State, peer_step, next_round,
  main_step, started, peer_moves, main_moves, Steps, done, then_step,
}
use mytests.Latency.Invariant.{
  IsRunning, Stopping, Fits, at_state, ended, Steps-IsGood, started-IsGood,
}

-- Some further accesses bring the main thread to its end.
abbrev pub CanEnd : ℕ → State → Type 0
CanEnd more s = (u : State) × Steps more false s u × (u.main ≡ joined) × (u.peer ≡ helper_end)

peer_first : (more : ℕ) (s : State) → CanEnd more (peer_step true s) → CanEnd more s
peer_first more s (u, steps, m, p) =
    (u, then_step s (peer_step true s) u (peer_moves true s) steps, m, p)

main_first : (more : ℕ) (s : State) → CanEnd more (main_step more false true s) → CanEnd more s
main_first more s (u, steps, m, p) =
    (u, then_step s (main_step more false true s) u (main_moves true s) steps, m, p)

-- The helper gets the shared variable to 1.
raise :
    (more : ℕ) (p : Peer) (m : Main) (x : ℕ)
    → x ≤ 1
    → IsRunning p
    → ((q : Peer) → IsRunning q → CanEnd more (at_state q m 1 0))
    → CanEnd more (at_state p m x 0)
unfolding peer_step
raise more test_stop m x b h go =
    peer_first more (at_state test_stop m x 0)
      (peer_first more (at_state store_one m x 0) (go exchange_one tt))
raise more store_one m x b h go = peer_first more (at_state store_one m x 0) (go exchange_one tt)
raise more exchange_one m zero b h go =
    peer_first more (at_state exchange_one m 0 0) (go test_stop tt)
raise more exchange_one m (suc x) b h go =
    let one : x ≡ 0 = omega (arith, b) in
    subst (λ (t : ℕ). CanEnd more (at_state exchange_one m (suc t) 0)) (sym one)
      (go exchange_one tt)
raise more store_stopped m x b h go = absurd h
raise more helper_end m x b h go = absurd h

join_helper : (more x : ℕ) → CanEnd more (at_state helper_end await_stopped x 2)
unfolding main_step
join_helper more x = main_first more (at_state helper_end await_stopped x 2) (
    main_first more (at_state helper_end join x 2)
      (at_state helper_end joined x 2, done (at_state helper_end joined x 2), refl, refl))

-- A helper that looks at the token sees that it is to stop.
stop_helper : (more x : ℕ) → CanEnd more (at_state test_stop await_stopped x 1)
unfolding peer_step
stop_helper more x =
    peer_first more (at_state test_stop await_stopped x 1)
      (peer_first more (at_state store_stopped await_stopped x 1) (join_helper more x))

-- The main thread stores 0 for a helper that waits for it.
free_helper : (more x : ℕ) → CanEnd more (at_state exchange_one await_stopped x 1)
unfolding main_step peer_step
free_helper more x = main_first more (at_state exchange_one await_stopped x 1) (
    main_first more (at_state exchange_one unblock x 1)
      (peer_first more (at_state exchange_one await_stopped 0 1) (stop_helper more 1)))

stopping :
    (more : ℕ) (p : Peer) (x token : ℕ)
    → Stopping p token
    → CanEnd more (at_state p await_stopped x token)
unfolding peer_step
stopping more helper_end x token h = rw h (join_helper more x)
stopping more test_stop x token h = rw h (stop_helper more x)
stopping more store_one x token h =
    rw h (peer_first more (at_state store_one await_stopped x 1) (free_helper more 1))
stopping more exchange_one x token h = rw h (free_helper more x)
stopping more store_stopped x token h =
    rw h (peer_first more (at_state store_stopped await_stopped x 1) (join_helper more x))

store_token : (more : ℕ) (p : Peer) (x : ℕ) → IsRunning p → CanEnd more (at_state p store_stop x 0)
unfolding main_step
store_token more p x h =
    main_first more (at_state p store_stop x 0) (stopping more p x 1 (told p h))
  where
    told : (p : Peer) → IsRunning p → Stopping p 1
    told test_stop h = refl
    told store_one h = refl
    told exchange_one h = refl
    told store_stopped h = absurd h
    told helper_end h = absurd h

-- The rounds, by induction on those that are left.
exchange :
    (more left : ℕ) (p : Peer) (x : ℕ)
    → x ≤ 1
    → IsRunning p
    → ((q : Peer) → IsRunning q → CanEnd more (at_state q (next_round more false left) 0 0))
    → CanEnd more (at_state p (exchange_zero left) x 0)
unfolding main_step
exchange more left p x b h go =
    raise more p (exchange_zero left) x b h
      (λ q hq. main_first more (at_state q (exchange_zero left) 1 0) (go q hq))

rounds :
    (more left : ℕ) (p : Peer) (x : ℕ)
    → x ≤ 1
    → IsRunning p
    → CanEnd more (at_state p (store_zero left) x 0)
unfolding main_step next_round
rounds more zero p x b h =
    main_first more (at_state p (store_zero zero) x 0)
      (exchange more zero p 0 (omega arith) h (λ q hq. store_token more q 0 hq))
rounds more (suc left) p x b h =
    main_first more (at_state p (store_zero (suc left)) x 0)
      (exchange more (suc left) p 0 (omega arith) h (λ q hq. rounds more left q 0 (omega arith) hq))

after_round :
    (more left : ℕ) (q : Peer)
    → IsRunning q
    → CanEnd more (at_state q (next_round more false left) 0 0)
unfolding next_round
after_round more zero q h = store_token more q 0 h
after_round more (suc left) q h = rounds more left q 0 (omega arith) h

good-CanEnd :
    (more : ℕ) (p : Peer) (m : Main) (x token : ℕ)
    → x ≤ 1
    → Fits m p token
    → CanEnd more (at_state p m x token)
unfolding main_step
good-CanEnd more p await_one x token b (h, e) = rw e (
    raise more p await_one x b h
      (λ q hq. main_first more (at_state q await_one 1 0) (rounds more more q 1 (omega arith) hq)))
good-CanEnd more p (store_zero left) x token b (h, e) = rw e (rounds more left p x b h)
good-CanEnd more p (exchange_zero left) x token b (h, e) =
    rw e (exchange more left p x b h (after_round more left))
good-CanEnd more p store_stop x token b (h, e) = rw e (store_token more p x h)
good-CanEnd more p await_stopped x token b h = stopping more p x token h
good-CanEnd more p unblock x token b h =
    main_first more (at_state p unblock x token) (stopping more p 0 token h)
good-CanEnd more p join x token b (h, e) =
    subst (λ (q : Peer). CanEnd more (at_state q join x token)) (sym (ended p h))
      (main_first more (at_state helper_end join x token)
        (at_state helper_end joined x token, done (at_state helper_end joined x token), refl, refl))
good-CanEnd more p joined x token b (h, e) =
    (at_state p joined x token, done (at_state p joined x token), refl, ended p h)

-- Whatever accesses the two threads have made, with a loop that runs for ever or one that ends, also with
-- exchanges that failed for no reason, the shared variable is 0 or 1, and the helper has ended if the main
-- thread has joined it. From there on, with a loop that ends, there are further accesses with which both
-- threads end: neither is ever stuck.
pub test_latency-CanEnd :
    (more : ℕ) (busy_loop : Bool) (s : State)
    → Steps more busy_loop started s
    → (s.shared ≤ 1) × (s.main ≡ joined → s.peer ≡ helper_end) × CanEnd more s
test_latency-CanEnd more busy_loop s steps =
    let g = Steps-IsGood more busy_loop started s steps started-IsGood in
    (
      g.bit,
      (λ e. ended s.peer ((subst (λ (m : Main). Fits m s.peer s.stop_token) e g.fits).0)),
      good-CanEnd more s.peer s.main s.shared s.stop_token g.bit g.fits,
    )
