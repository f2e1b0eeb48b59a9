-- ===== src/Qspinlock/Thread.antt =====
-- One thread in queued_spin_lock, queued_spin_lock_slowpath and queued_spin_unlock, a shared access
-- at a time. Memory is sequentially consistent: the barriers of the code are no steps.
use mytests.Base.{ℕ, ◌+◌, ◌-◌, Option, none, some, if◌then◌else◌, ite}
use mytests.Base.{ℕ_discrete, leb, ◌==◌, not, ◌||◌}
use mytests.Qspinlock.Lock.{
  Lock, word, pending_val, locked_val, contended, has_pending, has_locked, has_locked_pending,
  has_tail, tail_is, encode_tail, decode_tail, try_cmpxchg, clear_pending, clear_pending_set_locked,
  set_locked, xchg_tail, fetch_set_pending, queued_spin_unlock,
}

abbrev pub update {ℓ} : {A : Type ℓ} → (ℕ → A) → ℕ → A → ℕ → A
update f i a j = ite (ℕ_discrete i j) a (f j)

-- The lock word, and the array `qnodes` field by field: a node is the index of its thread, and
-- NULL is `none`.
pub record Mem : Type 0 where
  pub lock : Lock
  pub next : ℕ → Option ℕ
  pub node_locked : ℕ → ℕ
  pub count : ℕ → ℕ

-- _Q_PENDING_LOOPS
abbrev pub pending_loops : ℕ
pending_loops = 1

-- Where a thread stands, with the local variables that are live there.
pub data Pc : Type 0 where
  idle : Pc  -- before the cmpxchg of queued_spin_lock
  wait_pending : (cnt : ℕ) → Pc  -- atomic_cond_read_relaxed at the start of the slow path
  set_pending : Pc  -- queued_fetch_set_pending_acquire
  undo_pending : Pc  -- clear_pending
  wait_locked : Pc  -- atomic_cond_read_acquire of the pending waiter
  take_pending : Pc  -- clear_pending_set_locked
  queue : Pc  -- node->count++
  init_locked : Pc  -- node->locked = 0
  init_next : Pc  -- node->next = NULL
  trylock_read : Pc  -- the read of queued_spin_trylock
  trylock_cas : Pc  -- its cmpxchg
  publish : Pc  -- xchg_tail
  link : (prev : ℕ) → Pc  -- WRITE_ONCE(prev->next, node)
  wait_node : Pc  -- arch_mcs_spin_lock_contended
  read_next : Pc  -- next = READ_ONCE(node->next)
  wait_head : (next : Option ℕ) → Pc  -- atomic_cond_read_acquire of the queue head
  claim_cas : (next : Option ℕ) → (val : ℕ) → Pc  -- atomic_try_cmpxchg_relaxed
  claim_set : (next : Option ℕ) → Pc  -- set_locked
  wait_next : Pc  -- smp_cond_load_relaxed(&node->next, VAL)
  pass : (next : ℕ) → Pc  -- arch_mcs_spin_unlock_contended(&next->locked)
  release : Pc  -- --count
  critical : Pc  -- the lock is held, up to queued_spin_unlock
  aborted : Pc  -- abort() or a failed assert

-- "If we observe any contention; queue."
unfoldable pub check_contention : ℕ → Pc
check_contention val = if contended val then queue else set_pending

-- The start of queued_spin_lock_slowpath, up to its first access.
unfoldable pub slowpath_entry : ℕ → Pc
unfolding check_contention
slowpath_entry val = if val == pending_val then wait_pending pending_loops else check_contention val

-- One read of `(VAL != _Q_PENDING_VAL) || !cnt--`.
unfoldable pub poll_pending : ℕ → ℕ → Pc
unfolding check_contention
poll_pending cnt val =
    if not (val == pending_val) || (cnt == 0) then check_contention val else wait_pending (cnt - 1)

-- What the value before the pending bit was set leads to.
unfoldable pub after_set_pending : ℕ → Pc
after_set_pending val =
    if contended val
    then (if has_pending val then queue else undo_pending)
    else if has_locked val
    then wait_locked
    else take_pending

-- What the previous tail leads to.
unfoldable pub after_publish : ℕ → Pc
after_publish old =
    if has_tail old
    then elim (decode_tail old) [ none ↦ aborted | some prev ↦ link prev ]
    else wait_head none

-- The next access of thread `me`.
unfoldable pub advance : ℕ → Mem → Pc → Mem × Pc
advance me m idle =
    let r = try_cmpxchg m.lock 0 locked_val in
    (record m { lock = r.lock }, if r.won then critical else slowpath_entry r.seen)
advance me m (wait_pending cnt) = (m, poll_pending cnt (word m.lock))
advance me m set_pending =
    let (val, l) = fetch_set_pending m.lock in (record m { lock = l }, after_set_pending val)
advance me m undo_pending = (record m { lock = clear_pending m.lock }, queue)
advance me m wait_locked = (m, if has_locked (word m.lock) then wait_locked else take_pending)
advance me m take_pending = (record m { lock = clear_pending_set_locked m.lock }, critical)
advance me m queue =
    let idx = m.count me in
    (record m { count = update m.count me (idx + 1) }, if leb 1 idx then aborted else init_locked)
advance me m init_locked = (record m { node_locked = update m.node_locked me 0 }, init_next)
advance me m init_next = (record m { next = update m.next me none }, trylock_read)
advance me m trylock_read = (m, if word m.lock == 0 then trylock_cas else publish)
advance me m trylock_cas =
    let r = try_cmpxchg m.lock 0 locked_val in
    (record m { lock = r.lock }, if r.won then release else publish)
advance me m publish =
    let (old, l) = xchg_tail m.lock (encode_tail me) in (record m { lock = l }, after_publish old)
advance me m (link prev) = (record m { next = update m.next prev (some me) }, wait_node)
advance me m wait_node = (m, if m.node_locked me == 0 then wait_node else read_next)
advance me m read_next = (m, wait_head (m.next me))
advance me m (wait_head next) =
    let val = word m.lock in
    (
      m,
      if has_locked_pending val
          then wait_head next
          else if tail_is val (encode_tail me)
          then claim_cas next val
          else claim_set next,
    )
advance me m (claim_cas next val) =
    let r = try_cmpxchg m.lock val locked_val in
    (record m { lock = r.lock }, if r.won then release else claim_set next)
advance me m (claim_set next) =
    (record m { lock = set_locked m.lock }, elim next [ none ↦ wait_next | some nx ↦ pass nx ])
advance me m wait_next = (m, elim (m.next me) [ none ↦ wait_next | some nx ↦ pass nx ])
advance me m (pass nx) = (record m { node_locked = update m.node_locked nx 1 }, release)
advance me m release = (record m { count = update m.count me (m.count me - 1) }, critical)
advance me m critical = (record m { lock = queued_spin_unlock m.lock }, idle)
advance me m aborted = (m, aborted)
