-- ===== src/Qspinlock/Progress/Moving.antt =====
-- Some thread that wants or has the lock can always go on.
use mytests.Base.{
  ℕ, ◌+◌, ◌≤◌, ◌<◌, ◌≡◌, ◌≢◌, inl, inr, refl, arith, Bool, true, false, Bool-cases, Option-cases,
  dec_lt,
}
use mytests.Qspinlock.Lock.{max_user_threads}
use mytests.Qspinlock.Masks.{has_locked-word, has_locked_pending-word}
use mytests.Qspinlock.Thread.{
  Mem, Pc, advance, check_contention, poll_pending, after_set_pending, after_publish, idle,
  wait_pending, wait_locked, publish, wait_node, wait_head, wait_next, aborted,
}
use mytests.Qspinlock.Invariant.Defs.{owns, pends, queued, Queue, Locals, Inv}
use mytests.Qspinlock.System.{System, step, Reach}
use mytests.Qspinlock.Progress.Defs.{Alive}
use mytests.Qspinlock.Progress.Kept.{Reach-Live}

-- The thread is in the lock and its next access does not depend on others.
abbrev quick : Pc → Bool
quick idle = false
quick aborted = false
quick wait_locked = false
quick wait_node = false
quick (wait_head _) = false
quick wait_next = false
quick _ = true

quick-advance : (me : ℕ) (m : Mem) (p : Pc) → quick p ≡ true → (advance me m p).1 ≢ p
unfolding advance poll_pending check_contention after_set_pending after_publish
quick-advance me m (wait_pending cnt) k e = ground (arith, e)
quick-advance me m publish k e = ground (arith, e)
quick-advance me m p k e = ground (arith, k, e)

-- Thread `j` is in the lock, and its next access takes it on.
pub record Moves (m : Mem) (pc : ℕ → Pc) (j : ℕ) : Type 0 where
  pub busy : pc j ≢ idle
  pub moves : (advance j m (pc j)).1 ≢ pc j

module _ {n : ℕ} {m : Mem} {pc : ℕ → Pc} {q : Queue} (inv : Inv m pc q n)
    (alive : Alive m pc q) where
  open alive use {owner, pender, filled, head_woken, linking, expected}
  open inv use {small, range, locals}

  abbrev pub SomeMoves : Type 0
  SomeMoves = (j : ℕ) × Moves m pc j

  quick-Moves : (j : ℕ) → quick (pc j) ≡ true → SomeMoves
  quick-Moves j k =
      (j, record { busy = λ e. ground (arith, k, e); moves = quick-advance j m (pc j) k })

  -- The thread moves where its place is known.
  at_place : (j : ℕ) (p : Pc) → pc j ≡ p → p ≢ idle → (advance j m p).1 ≢ p → SomeMoves
  at_place j p e b h = (j, record { busy = rw (e) b; moves = rw (e) h })

  next-Moves : (i : ℕ) → pc i ≡ wait_next → SomeMoves
  unfolding advance
  next-Moves i e = elim (Option-cases (m.next i)) [
    | inr (nx, k) ↦ at_place i wait_next e (λ d. cc) (λ d. ground (arith, k, d))
    | inl k ↦ elim (expected i (ground (arith, e))) [
      | inr (j, b) ↦ quick-Moves j (ground (arith, b))
      | inl lt ↦
          let (j, o, at) = filled (q.place i + 1) (omega (arith, range i (ground (arith, e)))) lt in
          elim (linking i j (ground (arith, e)) o at) [
            | inl l ↦ quick-Moves j (ground (arith, l))
            | inr l ↦ absurd (ground (arith, k, l))
          ]
    ]
  ]

  owner-Moves : (j : ℕ) (p : Pc) → pc j ≡ p → owns p ≡ true → SomeMoves
  owner-Moves j wait_next e o = next-Moves j e
  owner-Moves j p e o = quick-Moves j (ground (arith, e, o))

  pender-Moves : (j : ℕ) (p : Pc) → m.lock.locked ≡ 0 → pc j ≡ p → pends p ≡ true → SomeMoves
  unfolding advance
  pender-Moves j wait_locked z e o =
      at_place j wait_locked e (λ d. cc) (λ d. ground (arith, d, has_locked-word m.lock small))
  pender-Moves j p z e o = quick-Moves j (ground (arith, e, o))

  head-Moves :
      (j : ℕ) (p : Pc)
      → m.lock.locked ≡ 0
      → m.lock.pending ≡ 0
      → pc j ≡ p
      → queued p ≡ true
      → q.place j ≡ q.head
      → SomeMoves
  unfolding advance
  head-Moves j wait_next z y e o at = next-Moves j e
  head-Moves j wait_node z y e o at =
      at_place j wait_node e (λ d. cc) (λ d. ground (arith, d, head_woken j e at))
  head-Moves j (wait_head nx) z y e o at =
      at_place j (wait_head nx) e (λ d. cc)
        (λ d. ground (arith, d, has_locked_pending-word m.lock small))
  head-Moves j p z y e o at = quick-Moves j (ground (arith, e, o))

  free-Moves :
      (i : ℕ) (p : Pc) → m.lock.locked ≡ 0 → m.lock.pending ≡ 0 → pc i ≡ p → p ≢ idle → SomeMoves
  free-Moves i p z y e b = elim (Bool-cases (queued p)) [
    | inl o ↦
        let (lo, hi) = range i (rw (e) o) in
        let (j, o', at) = filled q.head (omega arith) (omega (arith, lo, hi)) in
        head-Moves j (pc j) z y refl o' at
    | inr o ↦ alone p e b o
  ]
    where
      stuck : Locals m pc q i (pc i) → pc i ≡ aborted → ⊥
      stuck l e = rw (e) at l

      alone : (p : Pc) → pc i ≡ p → p ≢ idle → queued p ≡ false → SomeMoves
      alone idle e b o = absurd (b refl)
      alone aborted e b o = absurd (stuck (locals i) e)
      alone wait_locked e b o = pender-Moves i wait_locked z e refl
      alone p e b o = quick-Moves i (ground (arith, e, o, b))

  some-Moves : (i : ℕ) → pc i ≢ idle → SomeMoves
  some-Moves i b = elim (dec_lt 0 m.lock.locked) [
    | yes l ↦ let (j, o) = owner (λ z. omega (arith, l, z)) in owner-Moves j (pc j) refl o
    | no l ↦ elim (dec_lt 0 m.lock.pending) [
      | yes h ↦
          let (j, o) = pender (λ z. omega (arith, h, z)) in
          pender-Moves j (pc j) (omega (arith, l)) refl o
      | no h ↦ free-Moves i (pc i) (omega (arith, l)) (omega (arith, h)) refl b
    ]
  ]

-- No deadlock: with MAX_USER_THREADS threads at most, in every state that they get to, as long as a thread is
-- in queued_spin_lock or holds the lock, there is such a thread whose next access takes it on, so that it is
-- not one of those that spin on a value that does not change.
pub no_deadlock :
    {n : ℕ} {s : System}
    → n ≤ max_user_threads
    → Reach n s
    → (i : ℕ) → s.pc i ≢ idle
    → (j : ℕ) × (j < n) × (s.pc j ≢ idle) × ((step j s).pc j ≢ s.pc j)
unfolding step
no_deadlock {n} {s} few r i b =
    let x = Reach-Live few r in
    let (j, h) = some-Moves x.inv x.alive i b in
    elim (dec_lt j n) [
      | yes lt ↦ (j, lt, h.busy, λ e. h.moves (ground (arith, e)))
      | no le ↦ absurd (h.busy (x.inv.asleep j (omega arith)))
    ]
