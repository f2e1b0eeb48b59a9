-- ===== src/Qspinlock/Safety.antt =====
-- What holds in every reachable state of the lock, and the mutex that it implements.
use mytests.Base.{ℕ, ◌<◌, ◌≤◌, ◌≡◌, ◌≢◌, inl, inr, arith, true, false}
use mytests.Base.{Option, none, some, ℕ_discrete, Bool-cases}
use mathlib.Core.Path.{subst}
use mytests.Qspinlock.Lock.{
  word, max_user_threads, queued_spin_is_locked, queued_spin_value_unlocked,
}
use mytests.Qspinlock.Thread.{aborted}
use mytests.Qspinlock.System.{System, step, Reach, later}
use mytests.Qspinlock.Invariant.Defs.{owns, pends, queued}
use mytests.Qspinlock.Invariant.Owners.{nobody}
use mytests.Qspinlock.Invariant.Kept.{Reach-Inv}

-- Mutual exclusion: with at most MAX_USER_THREADS threads, while a thread owns the lock no other
-- thread does; a thread owns it from the write of the locked byte that acquires it, on any of the
-- four ways in, to its unlock.
pub mutual_exclusion :
    {n : ℕ} {s : System}
    → n ≤ max_user_threads
    → Reach n s
    → (i j : ℕ) → i ≢ j
    → owns (s.pc i) ≡ true
    → owns (s.pc j) ≡ false
mutual_exclusion few r i j = ground (arith, (Reach-Inv few r).inv.own_unique i j)

-- Neither the abort() on nested contexts nor the assert in decode_tail is ever reached.
pub never_aborts :
    {n : ℕ} {s : System} → n ≤ max_user_threads → Reach n s → (i : ℕ) → s.pc i ≢ aborted
never_aborts few r i e = rw e at ((Reach-Inv few r).inv.locals i)

-- The lock word tells the truth: when queued_spin_value_unlocked says that the lock is free, no
-- thread owns it, none has the pending bit and none is queued; and while a thread owns it,
-- queued_spin_is_locked is not 0.
pub unlocked_is_free :
    {n : ℕ} {s : System}
    → n ≤ max_user_threads
    → Reach n s
    → (i : ℕ)
    → (queued_spin_value_unlocked s.mem.lock ≡ true
        → (owns (s.pc i) ≡ false) × (pends (s.pc i) ≡ false) × (queued (s.pc i) ≡ false))
      × (owns (s.pc i) ≡ true → queued_spin_is_locked s.mem.lock ≢ 0)
unfolding queued_spin_value_unlocked queued_spin_is_locked word
unlocked_is_free {s} few r i =
    let inv = (Reach-Inv few r).inv in
    (
      λ z. (
        ground (arith, inv.own_locked i),
        ground (arith, inv.pend_pending i),
        nobody inv i (ground arith) i,
      ),
      λ o z. ground (arith, inv.own_locked i),
    )

-- The abstract lock: who holds it.
pub data MutexStep (i : ℕ) : Option ℕ → Option ℕ → Type 0 where
  wait : (o : Option ℕ) → MutexStep i o o
  acquire : MutexStep i none (some i)
  release : MutexStep i (some i) none

-- The state of the abstract lock that a state of the threads stands for.
abbrev pub Holds : System → Option ℕ → Type 0
Holds s none = (i : ℕ) → owns (s.pc i) ≡ false
Holds s (some i) = owns (s.pc i) ≡ true

-- The other threads keep or lack the lock as before.
module _ {n : ℕ} {s : System} (few : n ≤ max_user_threads) (r : Reach n s) (i : ℕ)
    (lt : i < n) where
  others : (j : ℕ) → i ≢ j → (step i s).pc j ≡ s.pc j
  unfolding step
  others j ne = ground arith

  none_left : owns (s.pc i) ≡ true → owns ((step i s).pc i) ≡ false → Holds (step i s) none
  none_left before after j = elim (ℕ_discrete i j) [
    | yes e ↦ subst (λ k. owns ((step i s).pc k) ≡ false) e after
    | no ne ↦ rw (others j ne) (ground (arith, mutual_exclusion few r i j))
  ]

  still_none : Holds s none → owns ((step i s).pc i) ≡ false → Holds (step i s) none
  still_none free after j = elim (ℕ_discrete i j) [
    | yes e ↦ subst (λ k. owns ((step i s).pc k) ≡ false) e after
    | no ne ↦ rw (others j ne) (free j)
  ]

  next_state : Reach n (step i s)
  next_state = later i lt r

  simulate : (o : Option ℕ) → Holds s o → (o' : Option ℕ) × MutexStep i o o' × Holds (step i s) o'
  simulate none free = elim (Bool-cases (owns ((step i s).pc i))) [
    | inl t ↦ (some i, MutexStep.acquire, t)
    | inr f ↦ (none, MutexStep.wait none, still_none free f)
  ]
  simulate (some j) held = elim (ℕ_discrete i j) [
    | no ne ↦ (some j, MutexStep.wait (some j), rw (others j ne) held)
    | yes e ↦ elim (Bool-cases (owns ((step i s).pc i))) [
      | inl t ↦ (some j, MutexStep.wait (some j), subst (λ k. owns ((step i s).pc k) ≡ true) e t)
      | inr f ↦ (
        none,
        subst (λ k. MutexStep i (some k) none) e MutexStep.release,
        none_left (rw e held) f,
      )
    ]
  ]

-- The queued spinlock refines a mutex: whatever thread steps, in any reachable state, the holder
-- stays, or the stepping thread takes the lock from nobody, or the holder itself gives it up.
pub refines_mutex :
    {n : ℕ} {s : System} (i : ℕ) (o : Option ℕ)
    → n ≤ max_user_threads
    → Reach n s
    → i < n
    → Holds s o
    → (o' : Option ℕ) × MutexStep i o o' × Holds (step i s) o'
refines_mutex i o few r lt h = simulate few r i lt o h
