-- ===== src/Qspinlock/Invariant/Defs.antt =====
-- The invariant of the queued spinlock.
use mytests.Base.{ℕ, ◌+◌, ◌*◌, ◌≤◌, ◌<◌, ◌≡◌, ◌≢◌, Bool, true, false, Option, none, some}
use mytests.Qspinlock.Lock.{max_user_threads}
use mytests.Qspinlock.Masks.{IsSmall, code}
use mytests.Qspinlock.Thread.{
  Mem, Pc, idle, undo_pending, wait_locked, take_pending, init_locked, init_next, trylock_read,
  trylock_cas, publish, link, wait_node, read_next, wait_head, claim_cas, claim_set, wait_next,
  pass, release, critical, aborted,
}

-- The thread owns the locked byte.
abbrev pub owns : Pc → Bool
owns wait_next = true
owns (pass _) = true
owns release = true
owns critical = true
owns _ = false

-- The thread set the pending bit, and nobody else clears it.
abbrev pub pends : Pc → Bool
pends undo_pending = true
pends wait_locked = true
pends take_pending = true
pends _ = false

-- The thread will take the lock from the pending bit.
abbrev pub takes : Pc → Bool
takes wait_locked = true
takes take_pending = true
takes _ = false

-- The head of the queue has seen the lock free.
abbrev pub claims : Pc → Bool
claims (claim_cas _ _) = true
claims (claim_set _) = true
claims _ = false

-- The thread's node is published, and the lock has not been handed on yet.
abbrev pub queued : Pc → Bool
queued (link _) = true
queued wait_node = true
queued read_next = true
queued (wait_head _) = true
queued (claim_cas _ _) = true
queued (claim_set _) = true
queued wait_next = true
queued (pass _) = true
queued _ = false

-- The thread uses its node.
abbrev pub counted : Pc → ℕ
counted init_locked = 1
counted init_next = 1
counted trylock_read = 1
counted trylock_cas = 1
counted publish = 1
counted release = 1
counted (link _) = 1
counted wait_node = 1
counted read_next = 1
counted (wait_head _) = 1
counted (claim_cas _ _) = 1
counted (claim_set _) = 1
counted wait_next = 1
counted (pass _) = 1
counted _ = 0

-- The places of the threads in the queue, which the code does not store.
pub record Queue : Type 0 where
  pub place : ℕ → ℕ
  pub head : ℕ
  pub fresh : ℕ

-- A thread behind the head spins on its node, or still has to link it.
abbrev pub Behind : ℕ → Pc → Type 0
Behind locked (link _) = locked ≡ 0
Behind locked wait_node = locked ≡ 0
Behind locked _ = ⊥

module _ (m : Mem) (pc : ℕ → Pc) (q : Queue) where
  -- Thread `j` is next behind `i` and spins on its node.
  abbrev pub Follows : ℕ → ℕ → Type 0
  Follows i j = (pc j ≡ wait_node) × (q.place j ≡ q.place i + 1)

  abbrev pub FollowsIf : ℕ → Option ℕ → Type 0
  FollowsIf i none = Unit
  FollowsIf i (some j) = Follows i j

  -- What the locals of thread `i` say.
  abbrev pub Locals : ℕ → Pc → Type 0
  Locals i init_next = m.node_locked i ≡ 0
  Locals i trylock_read = (m.node_locked i ≡ 0) × (m.next i ≡ none)
  Locals i trylock_cas = (m.node_locked i ≡ 0) × (m.next i ≡ none)
  Locals i publish = (m.node_locked i ≡ 0) × (m.next i ≡ none)
  Locals i (link p) = (queued (pc p) ≡ true) × (q.place i ≡ q.place p + 1)
  Locals i (wait_head nx) = FollowsIf i nx
  Locals i (claim_cas nx val) = FollowsIf i nx × (val ≡ 65536 * code i)
  Locals i (claim_set nx) = FollowsIf i nx
  Locals i (pass nx) = Follows i nx
  Locals i aborted = ⊥
  Locals i _ = Unit

  -- The thread with the last place, whose code the tail holds.
  pub record Last (n : ℕ) : Type 0 where
    pub who : ℕ
    pub real : who < n
    pub inside : queued (pc who) ≡ true
    pub place_last : q.place who + 1 ≡ q.fresh
    pub tail_code : m.lock.tail ≡ code who

  pub record Inv (n : ℕ) : Type 0 where
    pub few : n ≤ max_user_threads
    pub small : IsSmall m.lock
    pub asleep : (i : ℕ) → n ≤ i → pc i ≡ idle
    pub own_locked : (i : ℕ) → owns (pc i) ≡ true → m.lock.locked ≡ 1
    pub own_unique : (i j : ℕ) → owns (pc i) ≡ true → owns (pc j) ≡ true → i ≡ j
    pub pend_pending : (i : ℕ) → pends (pc i) ≡ true → m.lock.pending ≡ 1
    pub pend_unique : (i j : ℕ) → pends (pc i) ≡ true → pends (pc j) ≡ true → i ≡ j
    pub take_free : (i : ℕ) → pc i ≡ take_pending → m.lock.locked ≡ 0
    pub claim_free : (i : ℕ) → claims (pc i) ≡ true → m.lock.locked ≡ 0
    pub claim_alone : (i j : ℕ) → claims (pc i) ≡ true → takes (pc j) ≡ false
    pub ordered : q.head ≤ q.fresh
    pub range : (i : ℕ) → queued (pc i) ≡ true → (q.head ≤ q.place i) × (q.place i < q.fresh)
    pub unique :
        (i j : ℕ) → queued (pc i) ≡ true → queued (pc j) ≡ true → q.place i ≡ q.place j → i ≡ j
    pub behind :
        (i : ℕ) → queued (pc i) ≡ true → q.place i ≢ q.head → Behind (m.node_locked i) (pc i)
    pub empty : m.lock.tail ≡ 0 → q.head ≡ q.fresh
    pub last : m.lock.tail ≢ 0 → Last n
    pub linked : (i j : ℕ) → queued (pc i) ≡ true → m.next i ≡ some j → Follows i j
    pub counts : (i : ℕ) → m.count i ≡ counted (pc i)
    pub locals : (i : ℕ) → Locals i (pc i)
