-- ===== src/Qspinlock/Masks.antt =====
-- The masks of the lock word select its fields.
use mytests.Base.{true}
use mytests.Base.{ℕ, ◌+◌, ◌*◌, ◌/◌, ◌%◌, ◌^◌, ◌≤◌, ◌<◌, ◌≡◌, arith, not}
use mytests.Base.{bit_and, bit_or, some, ◌==◌}
use mytests.Base.Digits.{bit_and_low, bit_and_high, bit_or_split, bit_or_last, bit_or-zero}
use mytests.Qspinlock.Lock.{
  Lock, word, of_word, locked_mask, pending_mask, tail_mask, locked_pending_mask, pending_val,
  complement, contended, has_pending, has_locked, has_locked_pending, has_tail, tail_is,
  encode_tail, decode_tail, fetch_set_pending, max_user_threads,
}

-- The bytes of the lock that the algorithm uses: `locked` and `pending` are 0 or 1.
pub record IsSmall (l : Lock) : Type 0 where
  pub locked_bit : l.locked ≤ 1
  pub pending_bit : l.pending ≤ 1
  pub tail_fits : l.tail < 65536
  pub no_idx : l.tail % 4 ≡ 0  -- the nesting level in the tail

-- The two views of the union agree.
pub of_word-word :
    (l : Lock) → l.locked < 256 → l.pending < 256 → l.tail < 65536 → of_word (word l) ≡ l
unfolding of_word word
of_word-word l a b c = ground arith

pub word-of_word : (v : ℕ) → v < 2 ^ 32 → word (of_word v) ≡ v
unfolding of_word word
word-of_word v h = omega arith

module _ (l : Lock) (s : IsSmall l) where
  locked_bits : bit_and (word l) locked_mask ≡ l.locked
  unfolding word
  locked_bits = omega (arith, bit_and_low 8 (word l))

  pending_bits : bit_and (word l) pending_mask ≡ 256 * l.pending
  unfolding word
  pending_bits = omega (arith, bit_and_high 8 (word l) 255, bit_and_low 8 (word l / 256))

  locked_pending_bits : bit_and (word l) locked_pending_mask ≡ l.locked + 256 * l.pending
  unfolding word
  locked_pending_bits = omega (arith, bit_and_low 16 (word l))

  tail_bits : bit_and (word l) tail_mask ≡ 65536 * l.tail
  unfolding word
  tail_bits = omega (arith, bit_and_high 16 (word l) 65535, bit_and_low 16 (word l / 65536))

  contended_bits : bit_and (word l) (complement locked_mask) ≡ 256 * l.pending + 65536 * l.tail
  unfolding word
  contended_bits = omega (arith, bit_and_high 8 (word l) 0xffffff, bit_and_low 24 (word l / 256))

  -- Contention is a pending bit or a tail.
  pub contended-word : contended (word l) ≡ not (l.pending + l.tail == 0)
  unfolding contended
  contended-word = ground (arith, contended_bits)

  pub has_pending-word : has_pending (word l) ≡ not (l.pending == 0)
  unfolding has_pending
  has_pending-word = ground (arith, pending_bits)

  pub has_locked-word : has_locked (word l) ≡ not (l.locked == 0)
  unfolding has_locked
  has_locked-word = ground (arith, locked_bits)

  pub has_locked_pending-word : has_locked_pending (word l) ≡ not (l.locked + l.pending == 0)
  unfolding has_locked_pending
  has_locked_pending-word = ground (arith, locked_pending_bits)

  pub tail_is-word : (t : ℕ) → tail_is (word l) (65536 * t) ≡ (l.tail == t)
  unfolding tail_is
  tail_is-word t = ground (arith, tail_bits)

  bit_or_pending : bit_or (word l) pending_val ≡ l.locked + 256 + 65536 * l.tail
  unfolding word
  bit_or_pending = ground (
    arith,
    bit_or_split 8 (l.pending + 256 * l.tail) 1 l.locked 0,
    bit_or-zero l.locked,
    bit_or_split 1 (128 * l.tail) 0 l.pending 1,
    bit_or-zero (128 * l.tail),
    bit_or_last l.pending 1,
    bit_or-zero (l.pending / 2),
  )

  -- While the locked and pending bytes are 0 or 1, queued_fetch_set_pending_acquire returns the lock
  -- word and sets the pending byte to 1, and the locked byte and the tail stay as they are.
  pub fetch_set_pending_lem : fetch_set_pending l ≡ (word l, record l { pending = 1 })
  unfolding fetch_set_pending of_word
  fetch_set_pending_lem = ground (arith, bit_or_pending)

-- The tail code of a thread.
abbrev pub code : ℕ → ℕ
code i = (i + 1) * 4

pub encode_tail-code : (i : ℕ) → i < max_user_threads → encode_tail i ≡ 65536 * code i
unfolding encode_tail
encode_tail-code i h = omega arith

pub decode_tail-code : (i : ℕ) → i < max_user_threads → decode_tail (65536 * code i) ≡ some i
unfolding decode_tail
decode_tail-code i h = ground arith

pub decode_tail-eq-some :
    (t p : ℕ)
    → t < 65536
    → t % 4 ≡ 0
    → decode_tail (65536 * t) ≡ some p
    → (p < max_user_threads) × (t ≡ code p)
unfolding decode_tail
decode_tail-eq-some t p h z e = ground arith

-- `tail << _Q_TAIL_OFFSET` of a half-word.
pub has_tail_half : (t : ℕ) → t < 65536 → has_tail (65536 * t) ≡ not (t == 0)
unfolding has_tail
has_tail_half t h = ground (arith, bit_and_high 16 (65536 * t) 65535, bit_and_low 16 t)

-- The thread index comes back from the tail code word, and no code word is 0, which means no tail.
pub decode_tail-encode_tail :
    (i : ℕ)
    → i < max_user_threads
    → (decode_tail (encode_tail i) ≡ some i) × (has_tail (encode_tail i) ≡ true)
decode_tail-encode_tail i h = (
  rw (encode_tail-code i h) (decode_tail-code i h),
  rw (encode_tail-code i h) (ground (arith, has_tail_half (code i))),
)
