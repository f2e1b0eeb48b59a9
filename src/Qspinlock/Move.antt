-- ===== src/Qspinlock/Move.antt =====
-- The accesses of a thread by their outcome, with the tests read as facts on the fields of the lock.
use mytests.Base.{ℕ, ◌-◌, ◌<◌, ◌≡◌, ◌≢◌, Option, none, some}
use mytests.Qspinlock.Lock.{Lock, word, max_user_threads}
use mytests.Qspinlock.Masks.{code}
use mytests.Qspinlock.Thread.{
  Mem, Pc, update, idle, wait_pending, set_pending, undo_pending, wait_locked, take_pending, queue,
  init_locked, init_next, trylock_read, trylock_cas, publish, link, wait_node, read_next, wait_head,
  claim_cas, claim_set, wait_next, pass, release, critical, aborted,
}

abbrev pub IsFree : Lock → Type 0
IsFree l = (l.locked ≡ 0) × (l.pending ≡ 0) × (l.tail ≡ 0)

-- The lock with an owner and nobody behind it.
abbrev pub taken : Lock
taken = record { locked = 1; pending = 0; tail = 0 }

-- The last place of the queue is that of thread `p`.
abbrev pub IsLast : ℕ → Lock → Type 0
IsLast p l = l.tail ≡ code p

pub data Move (me : ℕ) (m : Mem) : Pc → Mem → Pc → Type 0 where
  stay : (p : Pc) → Move me m p m p
  fast_win : IsFree m.lock → Move me m idle (record m { lock = taken }) critical
  fast_wait : (cnt : ℕ) → Move me m idle m (wait_pending cnt)
  fast_queue : Move me m idle m queue
  fast_pend : Move me m idle m set_pending
  poll_more : (cnt cnt' : ℕ) → Move me m (wait_pending cnt) m (wait_pending cnt')
  poll_queue : (cnt : ℕ) → Move me m (wait_pending cnt) m queue
  poll_pend : (cnt : ℕ) → Move me m (wait_pending cnt) m set_pending
  pend_free :
      IsFree m.lock
      → Move me m set_pending (record m { lock = record (m.lock) { pending = 1 } }) take_pending
  pend_wait :
      m.lock.pending ≡ 0
      → m.lock.tail ≡ 0
      → Move me m set_pending (record m { lock = record (m.lock) { pending = 1 } }) wait_locked
  pend_undo :
      m.lock.pending ≡ 0
      → m.lock.tail ≢ 0
      → Move me m set_pending (record m { lock = record (m.lock) { pending = 1 } }) undo_pending
  pend_lose :
      m.lock.pending ≡ 1
      → Move me m set_pending (record m { lock = record (m.lock) { pending = 1 } }) queue
  undo : Move me m undo_pending (record m { lock = record (m.lock) { pending = 0 } }) queue
  owner_gone : m.lock.locked ≡ 0 → Move me m wait_locked m take_pending
  take :
      Move me m take_pending
        (record m { lock = record (m.lock) { locked = 1; pending = 0 } })
        critical
  enqueue : m.count me ≡ 0 → Move me m queue (record m { count = update m.count me 1 }) init_locked
  nested :
      (c : ℕ) → m.count me ≢ 0 → Move me m queue (record m { count = update m.count me c }) aborted
  clear_node :
      Move me m init_locked (record m { node_locked = update m.node_locked me 0 }) init_next
  clear_next : Move me m init_next (record m { next = update m.next me none }) trylock_read
  try_busy : Move me m trylock_read m publish
  try_free : Move me m trylock_read m trylock_cas
  try_win : IsFree m.lock → Move me m trylock_cas (record m { lock = taken }) release
  try_lose : Move me m trylock_cas m publish
  publish_first :
      m.lock.tail ≡ 0
      → Move me m publish (record m { lock = record (m.lock) { tail = code me } }) (wait_head none)
  publish_behind :
      (p : ℕ)
      → p < max_user_threads
      → IsLast p m.lock
      → Move me m publish (record m { lock = record (m.lock) { tail = code me } }) (link p)
  publish_wild :
      m.lock.tail ≢ 0
      → ((p : ℕ) → p < max_user_threads → ¬ IsLast p m.lock)
      → Move me m publish (record m { lock = record (m.lock) { tail = code me } }) aborted
  link_node : (p : ℕ) → Move me m (link p) (record m { next = update m.next p (some me) }) wait_node
  woken : m.node_locked me ≢ 0 → Move me m wait_node m read_next
  look_next : Move me m read_next m (wait_head (m.next me))
  head_last :
      (nx : Option ℕ)
      → m.lock.locked ≡ 0
      → m.lock.pending ≡ 0
      → IsLast me m.lock
      → Move me m (wait_head nx) m (claim_cas nx (word m.lock))
  head_more :
      (nx : Option ℕ)
      → m.lock.locked ≡ 0
      → m.lock.pending ≡ 0
      → ¬ IsLast me m.lock
      → Move me m (wait_head nx) m (claim_set nx)
  claim_win :
      (nx : Option ℕ) (val : ℕ)
      → word m.lock ≡ val
      → Move me m (claim_cas nx val) (record m { lock = taken }) release
  claim_lose :
      (nx : Option ℕ) (val : ℕ) → word m.lock ≢ val → Move me m (claim_cas nx val) m (claim_set nx)
  claim_known :
      (nx : ℕ)
      → Move me m
          (claim_set (some nx))
          (record m { lock = record (m.lock) { locked = 1 } })
          (pass nx)
  claim_unknown :
      Move me m (claim_set none) (record m { lock = record (m.lock) { locked = 1 } }) wait_next
  next_seen : (nx : ℕ) → m.next me ≡ some nx → Move me m wait_next m (pass nx)
  hand_over :
      (nx : ℕ) → Move me m (pass nx) (record m { node_locked = update m.node_locked nx 1 }) release
  leave : Move me m release (record m { count = update m.count me (m.count me - 1) }) critical
  unlock : Move me m critical (record m { lock = record (m.lock) { locked = 0 } }) idle
