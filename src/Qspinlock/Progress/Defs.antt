-- ===== src/Qspinlock/Progress/Defs.antt =====
-- What a state has beside its invariant, so that some thread can go on: for each reason to wait there is a
-- thread that will end it.
use mytests.Base.{ℕ, ◌+◌, ◌≤◌, ◌<◌, ◌≡◌, ◌≢◌, ◌⊎◌, Bool, true, false, none, some}
use mytests.Qspinlock.Thread.{
  Mem, Pc, undo_pending, queue, init_locked, init_next, trylock_read, trylock_cas, publish, link,
  wait_node, claim_set, wait_next,
}
use mytests.Qspinlock.Invariant.Defs.{owns, pends, queued, Queue}

-- The thread is on its way into the queue.
abbrev pub bound : Pc → Bool
bound undo_pending = true
bound queue = true
bound init_locked = true
bound init_next = true
bound trylock_read = true
bound trylock_cas = true
bound publish = true
bound _ = false

-- The thread waits, or will, for another one to link itself behind it.
abbrev pub expects : Pc → Bool
expects (claim_set none) = true
expects wait_next = true
expects _ = false

-- A thread that passes a test.
abbrev pub Some : (Pc → Bool) → (ℕ → Pc) → Type 0
Some g pc = (i : ℕ) × (g (pc i) ≡ true)

pub record Alive (m : Mem) (pc : ℕ → Pc) (q : Queue) : Type 0 where
  pub owner : m.lock.locked ≢ 0 → Some owns pc
  pub pender : m.lock.pending ≢ 0 → Some pends pc
  pub filled :
      (p : ℕ) → q.head ≤ p → p < q.fresh → (i : ℕ) × (queued (pc i) ≡ true) × (q.place i ≡ p)
  pub head_woken : (i : ℕ) → pc i ≡ wait_node → q.place i ≡ q.head → m.node_locked i ≢ 0
  pub linking :
      (i j : ℕ)
      → queued (pc i) ≡ true
      → queued (pc j) ≡ true
      → q.place j ≡ q.place i + 1
      → (pc j ≡ link i) ⊎ (m.next i ≡ some j)
  pub expected : (i : ℕ) → expects (pc i) ≡ true → (q.place i + 1 < q.fresh) ⊎ Some bound pc
