-- ===== src/Ascii/Words.antt =====
-- The word-wise test of ascii.c is the byte-wise one.
use mytests.Base.{
  ℕ, zero, suc, ◌+◌, ◌*◌, ◌/◌, ◌^◌, ◌<◌, ◌≡◌, refl, arith, Bool, true, ◌&&◌, inl, inr,
}
use mytests.Base.{
  List, [], ◌∷◌, bit_and, bit_or, ltb, leb, ◌==◌, take, drop, length, All, Bool-cases,
}
use mytests.Base.{drop-drop, All-drop}
use mytests.Base.Word.{u8, IsByte}
use mytests.Base.Digits.{bit_and_split, bit_and_high, bit_and_low, bit_or_misses, zero-bit_and}
use mytests.Ascii.Defs.{load, u64_loop, high_bits, fold_word, tail_loop, ascii_u64}

-- Every byte is below 0x80.
unfoldable pub all_ascii : List ℕ → Bool
all_ascii [] = true
all_ascii (b ∷ bs) = ltb b 0x80 && all_ascii bs

pub all_ascii-take-drop :
    (n : ℕ) (bs : List ℕ) → (all_ascii (take n bs) && all_ascii (drop n bs)) ≡ all_ascii bs
unfolding all_ascii
all_ascii-take-drop zero bs = refl
all_ascii-take-drop (suc n) [] = refl
all_ascii-take-drop (suc n) (b ∷ bs) = ground (arith, all_ascii-take-drop n bs)

high : ℕ → ℕ
high zero = 0
high (suc n) = high n * 2 ^ 8 + 0x80

pub top_bit : (x : ℕ) → (bit_and x 0x80 == 0) ≡ ltb (u8 x) 0x80
top_bit x = ground (arith, bit_and_high 7 x 1, bit_and_low 1 (x / 128))

take-nil : (n : ℕ) → take {A = ℕ} n [] ≡ []
take-nil zero = refl
take-nil (suc n) = refl

load-high :
    (n : ℕ) (bs : List ℕ)
    → All IsByte bs
    → (bit_and (load n bs) (high n) == 0) ≡ all_ascii (take n bs)
unfolding load high all_ascii
load-high zero bs h = ground (arith, zero-bit_and 0)
load-high (suc n) [] h = ground (
  arith,
  bit_and_split 8 (load n []) (high n) 0 0x80,
  zero-bit_and 0x80,
  load-high n [] tt,
  take-nil n,
)
load-high (suc n) (b ∷ bs) (h, hs) =
    ground (arith, bit_and_split 8 (load n bs) (high n) b 0x80, top_bit b, load-high n bs hs)

-- No byte of the word has its top bit.
clean : ℕ → Bool
clean w = bit_and w high_bits == 0

clean-bit_or : (a b : ℕ) → clean (bit_or a b) ≡ (clean a && clean b)
unfolding clean
clean-bit_or a b = ground (arith, bit_or_misses a b high_bits)

clean-load : (bs : List ℕ) → All IsByte bs → clean (load 8 bs) ≡ all_ascii (take 8 bs)
unfolding clean high
clean-load bs h = load-high 8 bs h

-- What the loop has left to find out.
clean_so_far : ℕ × ℕ × List ℕ → Bool
clean_so_far (or1, or2, rest) = clean or1 && clean or2 && all_ascii rest

u64_loop-clean :
    (fuel : ℕ) (dat : List ℕ) (or1 or2 : ℕ)
    → All IsByte dat
    → clean_so_far (u64_loop fuel dat or1 or2) ≡ (clean or1 && clean or2 && all_ascii dat)
unfolding u64_loop clean_so_far
u64_loop-clean zero dat or1 or2 h = refl
u64_loop-clean (suc fuel) dat or1 or2 h = ground (
  arith,
  u64_loop-clean fuel (drop 16 dat) (bit_or or1 (load 8 dat)) (bit_or or2 (load 8 (drop 8 dat)))
      (All-drop IsByte 16 dat h),
  clean-bit_or or1 (load 8 dat),
  clean-bit_or or2 (load 8 (drop 8 dat)),
  clean-load dat h,
  clean-load (drop 8 dat) (All-drop IsByte 8 dat h),
  all_ascii-take-drop 8 dat,
  all_ascii-take-drop 8 (drop 8 dat),
  drop-drop 8 8 16 dat,
)

tail_loop-ascii :
    (dat : List ℕ) (orall : ℕ)
    → All IsByte dat
    → orall < 256
    → ltb (tail_loop dat orall) 0x80 ≡ (ltb orall 0x80 && all_ascii dat)
unfolding tail_loop all_ascii
tail_loop-ascii [] orall h lt = ground arith
tail_loop-ascii (b ∷ dat) orall (h, hs) lt = ground (
  arith,
  tail_loop-ascii dat (u8 (bit_or orall b)) hs (omega arith),
  top_bit (bit_or orall b),
  top_bit orall,
  top_bit b,
  bit_or_misses orall b 0x80,
)

u64_loop-short :
    (fuel : ℕ) (dat : List ℕ) (or1 or2 : ℕ)
    → length dat < 16
    → u64_loop fuel dat or1 or2 ≡ (or1, or2, dat)
unfolding u64_loop
u64_loop-short zero dat or1 or2 h = refl
u64_loop-short (suc fuel) dat or1 or2 h = ground arith

u64_loop-rest :
    (fuel : ℕ) (dat : List ℕ) (or1 or2 : ℕ)
    → All IsByte dat
    → All IsByte (u64_loop fuel dat or1 or2).2
unfolding u64_loop
u64_loop-rest zero dat or1 or2 h = h
u64_loop-rest (suc fuel) dat or1 or2 h = elim (Bool-cases (leb 16 (length dat))) [
  | inl e ↦ rw e (
      u64_loop-rest fuel (drop 16 dat) (bit_or or1 (load 8 dat)) (bit_or or2 (load 8 (drop 8 dat)))
        (All-drop IsByte 16 dat h))
  | inr e ↦ rw e h
]

fold_word-clean : (w : ℕ) → (ltb (fold_word w) 0x80 ≡ clean w) × (fold_word w < 256)
unfolding fold_word clean
fold_word-clean w = ground arith

-- For every buffer of bytes, of any length, ascii_u64 returns 1 exactly when each byte is below 0x80.
pub ascii_u64-all_ascii : (dat : List ℕ) → All IsByte dat → ascii_u64 dat ≡ all_ascii dat
unfolding ascii_u64 clean_so_far
ascii_u64-all_ascii dat h =
    let r = u64_loop (length dat) dat 0 0 in
    let rest = u64_loop-rest (length dat) dat 0 0 h in
    elim (Bool-cases (leb 16 (length dat))) [
      | inl e ↦ ground (
        arith,
        e,
        u64_loop-clean (length dat) dat 0 0 h,
        zero_clean,
        fold_word-clean (bit_or r.0 r.1),
        clean-bit_or r.0 r.1,
        tail_loop-ascii r.2 (fold_word (bit_or r.0 r.1)) rest,
      )
      | inr e ↦
          rw (u64_loop-short (length dat) dat 0 0 (ground arith))
            (ground (arith, e, tail_loop-ascii dat 0 h (omega arith)))
    ]
  where
    zero_clean : clean 0 ≡ true
    zero_clean = unfold clean in ground (arith, zero-bit_and high_bits)
