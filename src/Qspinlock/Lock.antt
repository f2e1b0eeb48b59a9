-- ===== src/Qspinlock/Lock.antt =====
-- The 32-bit lock word of qspinlock/include/qspinlock_types.h, and the operations of
-- qspinlock/qspinlock.c and qspinlock/include/atomic/atomic.h on it.
use mytests.Base.{ℕ, ◌+◌, ◌-◌, ◌*◌, ◌/◌, ◌%◌, ◌^◌, Bool, true, false, not, bit_and, bit_or}
use mytests.Base.{Option, none, some, ltb, ◌==◌, if◌then◌else◌}
use mytests.Base.Word.{u32, ◌<<<◌, ◌>>>◌}

-- `struct qspinlock`: the union's bytes `locked` and `pending`, and its half-word `tail`.
pub record Lock : Type 0 where
  pub locked : ℕ  -- u8
  pub pending : ℕ  -- u8
  pub tail : ℕ  -- u16

-- The same storage as `val`; the machine is little-endian.
unfoldable pub word : Lock → ℕ
word l = l.locked + 256 * l.pending + 65536 * l.tail

unfoldable pub of_word : ℕ → Lock
of_word v = record { locked = v % 256; pending = v / 256 % 256; tail = v / 65536 % 65536 }

-- _Q_SET_MASK
abbrev pub set_mask : ℕ → ℕ → ℕ
set_mask bits offset = (2 ^ bits - 1) <<< offset

abbrev pub locked_mask : ℕ
locked_mask = set_mask 8 0

abbrev pub pending_mask : ℕ
pending_mask = set_mask 8 8

abbrev pub tail_idx_offset : ℕ
tail_idx_offset = 16

abbrev pub tail_cpu_offset : ℕ
tail_cpu_offset = 18

abbrev pub tail_mask : ℕ
tail_mask = bit_or (set_mask 2 16) (set_mask 14 18)

abbrev pub locked_pending_mask : ℕ
locked_pending_mask = bit_or locked_mask pending_mask

abbrev pub locked_val : ℕ
locked_val = 1

abbrev pub pending_val : ℕ
pending_val = 1 <<< 8

-- `~m` of an unsigned int.
abbrev pub complement : ℕ → ℕ
complement m = 2 ^ 32 - 1 - m

-- The tests of the slow path on a value of the lock word.
unfoldable pub contended : ℕ → Bool
contended val = not (bit_and val (complement locked_mask) == 0)

unfoldable pub has_pending : ℕ → Bool
has_pending val = not (bit_and val pending_mask == 0)

unfoldable pub has_locked : ℕ → Bool
has_locked val = not (bit_and val locked_mask == 0)

unfoldable pub has_locked_pending : ℕ → Bool
has_locked_pending val = not (bit_and val locked_pending_mask == 0)

unfoldable pub has_tail : ℕ → Bool
has_tail val = not (bit_and val tail_mask == 0)

-- `(val & _Q_TAIL_MASK) == tail`
unfoldable pub tail_is : ℕ → ℕ → Bool
tail_is val tail = bit_and val tail_mask == tail

abbrev pub max_user_threads : ℕ
max_user_threads = 64

unfoldable pub encode_tail : ℕ → ℕ
encode_tail thread_index = u32 ((thread_index + 1) <<< tail_cpu_offset)

-- The thread index; `none` is a failed `assert`.
unfoldable pub decode_tail : ℕ → Option ℕ
decode_tail tail =
    let thread_index = u32 ((tail >>> tail_cpu_offset) + 2 ^ 32 - 1) in
    if ltb thread_index max_user_threads then some thread_index else none

-- atomic_try_cmpxchg: whether it won, the value seen, and the lock as it leaves it.
pub record Cas : Type 0 where
  pub won : Bool
  pub seen : ℕ
  pub lock : Lock

unfoldable pub try_cmpxchg : Lock → ℕ → ℕ → Cas
try_cmpxchg l old new =
    let r = word l in
    if r == old
    then record { won = true; seen = old; lock = of_word new }
    else record { won = false; seen = r; lock = l }

unfoldable pub clear_pending : Lock → Lock
clear_pending l = record l { pending = 0 }

-- The write of `locked_pending` is a write of both bytes.
unfoldable pub clear_pending_set_locked : Lock → Lock
clear_pending_set_locked l = record l { locked = locked_val % 256; pending = locked_val / 256 }

unfoldable pub set_locked : Lock → Lock
set_locked l = record l { locked = locked_val }

-- xchg_tail: the previous tail code word, and the lock.
unfoldable pub xchg_tail : Lock → ℕ → ℕ × Lock
xchg_tail l tail = (u32 (l.tail <<< tail_idx_offset), record l { tail = tail >>> tail_idx_offset })

-- queued_fetch_set_pending_acquire: the previous value, and the lock.
unfoldable pub fetch_set_pending : Lock → ℕ × Lock
fetch_set_pending l = (word l, of_word (bit_or (word l) pending_val))

-- smp_store_release(&lock->locked, 0)
unfoldable pub queued_spin_unlock : Lock → Lock
queued_spin_unlock l = record l { locked = 0 }

-- queued_spin_is_locked and queued_spin_value_unlocked
unfoldable pub queued_spin_is_locked : Lock → ℕ
queued_spin_is_locked l = word l

unfoldable pub queued_spin_value_unlocked : Lock → Bool
queued_spin_value_unlocked l = word l == 0

unfoldable pub queued_spin_is_contended : Lock → ℕ
queued_spin_is_contended l = bit_and (word l) (complement locked_mask)
