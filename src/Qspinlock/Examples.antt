-- ===== src/Qspinlock/Examples.antt =====
-- Schedules of the threads, the states that they lead to, and the theorems there.
use mytests.Base.{
  ℕ, ◌≡◌, ◌≢◌, ◌<◌, refl, arith, true, false, Option, some, List, [], ◌∷◌, All, ℕ_discrete,
}
use mytests.Qspinlock.Lock.{
  word, of_word, contended, has_pending, has_locked, has_locked_pending, has_tail, tail_is,
  encode_tail, decode_tail, try_cmpxchg, clear_pending_set_locked, set_locked, xchg_tail,
  fetch_set_pending, queued_spin_unlock, queued_spin_value_unlocked, queued_spin_is_locked,
}
use mytests.Qspinlock.Thread.{
  advance, slowpath_entry, after_set_pending, after_publish, Pc, wait_locked, wait_node, pass,
  aborted,
}
use mytests.Qspinlock.System.{System, step, init, Reach, start, later}
use mytests.Qspinlock.Invariant.Defs.{owns, pends, queued}
use mytests.Qspinlock.Thread.{publish, link}
use mytests.Qspinlock.Order.{Stays, still, further, no_overtaking}
use mytests.Base.{◌⊎◌}
use mytests.Qspinlock.Progress.Moving.{no_deadlock}
use mytests.Qspinlock.Safety.{
  mutual_exclusion, never_aborts, unlocked_is_free, MutexStep, Holds, refines_mutex,
}

run : List ℕ → System → System
run [] s = s
run (i ∷ is) s = run is (step i s)

run-Reach :
    {n : ℕ} (is : List ℕ) (s : System) → All (λ i. i < n) is → Reach n s → Reach n (run is s)
unfolding run
run-Reach [] s h r = r
run-Reach (i ∷ is) s (lt, h) r = run-Reach is (step i s) h (later i lt r)

-- Thread 0 takes the lock, thread 1 becomes the pending waiter.
abbrev pending_waiter : List ℕ
pending_waiter = 0 ∷ 1 ∷ 1 ∷ []

-- Then threads 2 and 3 queue, thread 3 behind thread 2.
abbrev two_queued : List ℕ
two_queued = 0 ∷ 1 ∷ 1 ∷ 2 ∷ 2 ∷ 2 ∷ 2 ∷ 2 ∷ 2 ∷ 3 ∷ 3 ∷ 3 ∷ 3 ∷ 3 ∷ 3 ∷ 3 ∷ []

-- Thread 0 unlocks, thread 1 takes the lock and unlocks, thread 2 claims it and is about to pass the
-- head of the queue on to thread 3.
abbrev passing : List ℕ
passing =
    0 ∷ 1 ∷ 1 ∷ 2 ∷ 2 ∷ 2 ∷ 2 ∷ 2 ∷ 2 ∷ 3 ∷ 3 ∷ 3 ∷ 3 ∷ 3 ∷ 3 ∷ 3 ∷ 0 ∷ 1 ∷ 1 ∷ 1 ∷ 2 ∷ 2 ∷ 2 ∷ []

shape_pending :
    ((run pending_waiter init).mem.lock ≡ record { locked = 1; pending = 1; tail = 0 })
    × ((run pending_waiter init).pc 1 ≡ wait_locked)
unfolding run step advance try_cmpxchg word of_word slowpath_entry contended fetch_set_pending
    after_set_pending has_pending has_locked ℕ_discrete
shape_pending = (refl, refl)

shape_queued :
    ((run two_queued init).mem.lock ≡ record { locked = 1; pending = 1; tail = 16 })
    × ((run two_queued init).mem.next 2 ≡ some 3)
    × ((run two_queued init).pc 3 ≡ wait_node)
unfolding run step advance try_cmpxchg word of_word slowpath_entry contended fetch_set_pending
    after_set_pending has_pending has_locked ℕ_discrete xchg_tail encode_tail decode_tail
    after_publish has_tail
shape_queued = (refl, refl, refl)

shape_passing : ((run passing init).pc 2 ≡ pass 3) × ((run passing init).pc 0 ≡ Pc.idle)
unfolding run step advance try_cmpxchg word of_word slowpath_entry contended fetch_set_pending
    after_set_pending has_pending has_locked ℕ_discrete xchg_tail encode_tail decode_tail
    after_publish has_tail clear_pending_set_locked queued_spin_unlock has_locked_pending tail_is
    set_locked
shape_passing = (refl, refl)

passing-Reach : Reach 4 (run passing init)
passing-Reach = run-Reach passing init (omega arith) start

mutual_exclusion_example : owns ((run passing init).pc 3) ≡ false
mutual_exclusion_example =
    mutual_exclusion (omega arith) passing-Reach 2 3 (omega arith) (rw shape_passing.0 refl)

never_aborts_example : (run passing init).pc 3 ≢ aborted
never_aborts_example = never_aborts (omega arith) passing-Reach 3

unlocked_is_free_example :
    (queued_spin_value_unlocked (run passing init).mem.lock ≡ true
      → (owns ((run passing init).pc 2) ≡ false)
        × (pends ((run passing init).pc 2) ≡ false)
        × (queued ((run passing init).pc 2) ≡ false))
    × (owns ((run passing init).pc 2) ≡ true
        → queued_spin_is_locked (run passing init).mem.lock ≢ 0)
unlocked_is_free_example = unlocked_is_free (omega arith) passing-Reach 2

refines_mutex_example :
    (o' : Option ℕ) × MutexStep 2 (some 2) o' × Holds (step 2 (run passing init)) o'
refines_mutex_example =
    refines_mutex 2 (some 2) (omega arith) passing-Reach (omega arith) (rw shape_passing.0 refl)

-- Thread 3 spins on its node; thread 2 is the one that can go on.
no_deadlock_example :
    (j : ℕ) × (j < 4)
    × ((run passing init).pc j ≢ Pc.idle)
    × ((step j (run passing init)).pc j ≢ (run passing init).pc j)
no_deadlock_example =
    no_deadlock (omega arith) passing-Reach 2 (λ e. ground (arith, e, shape_passing.0))

-- Thread 2 is in the queue, thread 3 is about to publish its node.
abbrev publishing : List ℕ
publishing = 0 ∷ 1 ∷ 1 ∷ 2 ∷ 2 ∷ 2 ∷ 2 ∷ 2 ∷ 2 ∷ 3 ∷ 3 ∷ 3 ∷ 3 ∷ 3 ∷ []

shape_publishing :
    (queued ((run publishing init).pc 2) ≡ true) × ((run publishing init).pc 3 ≡ publish)
unfolding run step advance try_cmpxchg word of_word slowpath_entry contended fetch_set_pending
    after_set_pending has_pending has_locked ℕ_discrete xchg_tail encode_tail decode_tail
    after_publish has_tail
shape_publishing = (refl, refl)

-- Thread 3 publishes its node and links it, and thread 0 unlocks.
linked_behind :
    Stays 4 2 (step 3 (run publishing init)) (step 0 (step 3 (step 3 (run publishing init))))
unfolding run step advance try_cmpxchg word of_word slowpath_entry contended fetch_set_pending
    after_set_pending has_pending has_locked ℕ_discrete xchg_tail encode_tail decode_tail
    after_publish has_tail queued_spin_unlock
linked_behind = further 0 (omega arith) (further 3 (omega arith) still refl) refl

no_overtaking_example :
    let t = step 0 (step 3 (step 3 (run publishing init))) in
    ((p : ℕ) × (t.pc 3 ≡ link p)) ⊎ (t.pc 3 ≡ wait_node)
no_overtaking_example =
    no_overtaking (omega arith) (run-Reach publishing init (omega arith) start) 2 3 (omega arith)
      shape_publishing.0 shape_publishing.1 linked_behind
