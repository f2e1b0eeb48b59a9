-- ===== src/Ascii/Selftest.antt =====
-- The test of ascii.c passes for a correct function.
use mytests.Base.{ℕ, zero, suc, ◌+◌, ◌-◌, ◌≤◌, ◌<◌, ◌≡◌, refl, ap, ◌∙◌, arith, Bool, true, false}
use mytests.Base.{List, [], ◌∷◌, get_or, set, length, All}
use mytests.Base.Word.{u8, IsByte}
use mytests.Base.Digits.{bit_and_low}
use mytests.Ascii.Defs.{test_bytes, load_test_buf, negative_loop, test}
use mytests.Ascii.Words.{all_ascii}

abbrev IsAscii : ℕ → Type 0
IsAscii b = b < 0x80

test_bytes-IsAscii : (left v : ℕ) → v < 0x80 → All IsAscii (test_bytes left v)
unfolding test_bytes
test_bytes-IsAscii zero v h = tt
test_bytes-IsAscii (suc left) v h =
    (h, test_bytes-IsAscii left _ (omega (arith, bit_and_low 7 (u8 (v + 1)))))

all_ascii-IsAscii : (bs : List ℕ) → All IsAscii bs → (all_ascii bs ≡ true) × All IsByte bs
unfolding all_ascii
all_ascii-IsAscii [] h = (refl, tt)
all_ascii-IsAscii (b ∷ bs) (h, hs) =
    let (p, q) = all_ascii-IsAscii bs hs in (ground (arith, p), (omega arith, q))

-- A byte with its top bit set is found wherever it stands.
all_ascii-set :
    (bs : List ℕ) (i v : ℕ)
    → All IsByte bs
    → i < length bs
    → 0x80 ≤ v
    → v < 256
    → (all_ascii (set bs i v) ≡ false) × All IsByte (set bs i v)
unfolding all_ascii
all_ascii-set [] i v h lt ge small = absurd (omega arith)
all_ascii-set (b ∷ bs) zero v (h, hs) lt ge small = (ground arith, (small, hs))
all_ascii-set (b ∷ bs) (suc i) v (h, hs) lt ge small =
    let (p, q) = all_ascii-set bs i v hs (omega arith) ge small in (ground (arith, p), (h, q))

-- Raising a byte and lowering it again restores the buffer.
set_back :
    (bs : List ℕ) (i w v : ℕ)
    → i < length bs
    → v ≡ get_or bs i 0
    → (get_or (set bs i w) i 0 ≡ w) × (set (set bs i w) i v ≡ bs)
set_back [] i w v lt e = absurd (omega arith)
set_back (b ∷ bs) zero w v lt e = (refl, ap (λ (t : ℕ). t ∷ bs) e)
set_back (b ∷ bs) (suc i) w v lt e =
    let (p, q) = set_back bs i w v (omega arith) e in (p, ap (λ (t : List ℕ). b ∷ t) q)

get_or-IsAscii : (bs : List ℕ) (i : ℕ) → All IsAscii bs → get_or bs i 0 < 0x80
get_or-IsAscii [] i h = omega arith
get_or-IsAscii (b ∷ bs) zero (h, hs) = h
get_or-IsAscii (b ∷ bs) (suc i) (h, hs) = get_or-IsAscii bs i hs

module _ (func : List ℕ → Bool)
    (correct : (dat : List ℕ) → All IsByte dat → func dat ≡ all_ascii dat) (dat : List ℕ)
    (ascii : All IsAscii dat) where
  raised : ℕ → ℕ
  raised i = u8 (get_or dat i 0 + 0x80)

  func-raised : (i : ℕ) → i < length dat → func (set dat i (raised i)) ≡ false
  unfolding raised
  func-raised i lt =
      let (p, q) =
        all_ascii-set dat i (raised i) (all_ascii-IsAscii dat ascii).1 lt
          (omega (arith, get_or-IsAscii dat i ascii)) (omega arith) in
      correct (set dat i (raised i)) q ∙ p

  lowered :
      (i : ℕ)
      → i < length dat
      → set (set dat i (raised i)) i (u8 (get_or (set dat i (raised i)) i 0 + 256 - 0x80)) ≡ dat
  unfolding raised
  lowered i lt =
      let v = u8 (get_or (set dat i (raised i)) i 0 + 256 - 0x80) in
      let back = (set_back dat i (raised i) (get_or dat i 0) lt refl).0 in
      let e : v ≡ get_or dat i 0 = omega (arith, back, get_or-IsAscii dat i ascii) in
      (set_back dat i (raised i) v lt e).1

  negative_loop-silent :
      (left i : ℕ) → i + left ≤ length dat → negative_loop func left i false dat ≡ (false, dat)
  unfolding negative_loop raised
  negative_loop-silent zero i h = refl
  negative_loop-silent (suc left) i h =
      rw (lowered i (omega arith), func-raised i (omega arith))
        (negative_loop-silent left (i + 1) (omega arith))

  test-silent : test func dat ≡ (true, dat)
  unfolding test
  test-silent =
      let e : func dat ≡ true =
        correct dat (all_ascii-IsAscii dat ascii).1 ∙ (all_ascii-IsAscii dat ascii).0 in
      ground (arith, e, negative_loop-silent (length dat) 0 (omega arith))

-- For every length, the test on its test buffer prints "pass" for a function that returns 1 exactly on
-- the buffers whose bytes are all below 0x80, and leaves the buffer as it was.
pub test-load_test_buf :
    (func : List ℕ → Bool) (len : ℕ)
    → ((dat : List ℕ) → All IsByte dat → func dat ≡ all_ascii dat)
    → test func (load_test_buf len) ≡ (true, load_test_buf len)
unfolding load_test_buf
test-load_test_buf func len correct =
    test-silent func correct (test_bytes len 0) (test_bytes-IsAscii len 0 (omega arith))
