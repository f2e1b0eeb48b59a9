-- ===== src/Ascii/Defs.antt =====
-- The functions of ascii.c. A buffer is a list of bytes, `len` its length; the result 1 is `true`. The
-- machine is little-endian.
use mytests.Base.{ℕ, zero, suc, ◌+◌, ◌-◌, ◌*◌, ◌^◌, Bool, false, not, ◌||◌, bit_and, bit_or}
use mytests.Base.{
  List, [], ◌∷◌, ltb, leb, ◌==◌, if◌then◌else◌, get_or, set, take, drop, replicate, length,
}
use mytests.Base.Word.{u8}
use Prim.Native.Nat.{max}

-- `*(const uint64_t *)data`, from the first `n` of its bytes.
unfoldable pub load : ℕ → List ℕ → ℕ
load zero dat = 0
load (suc n) dat = load n (drop 1 dat) * 2 ^ 8 + get_or dat 0 0

-- The loop over 16 bytes at a time, on fuel: `or1`, `or2` and the bytes left.
unfoldable pub u64_loop : ℕ → List ℕ → ℕ → ℕ → ℕ × ℕ × List ℕ
u64_loop zero dat or1 or2 = (or1, or2, dat)
u64_loop (suc fuel) dat or1 or2 =
    let rest =
      u64_loop fuel (drop 16 dat) (bit_or or1 (load 8 dat)) (bit_or or2 (load 8 (drop 8 dat))) in
    if leb 16 (length dat) then rest else (or1, or2, dat)

abbrev pub high_bits : ℕ
high_bits = 0x8080808080808080

-- `orall = !(or & high_bits) - 1`
unfoldable pub fold_word : ℕ → ℕ
fold_word or_all = u8 ((if bit_and or_all high_bits == 0 then 1 else 0) + (2 ^ 32 - 1))

-- `while (len--) orall |= *data++;`
unfoldable pub tail_loop : List ℕ → ℕ → ℕ
tail_loop [] orall = orall
tail_loop (b ∷ dat) orall = tail_loop dat (u8 (bit_or orall b))

unfoldable pub ascii_u64 : List ℕ → Bool
ascii_u64 dat =
    let (or1, or2, rest) = u64_loop (length dat) dat 0 0 in
    let orall = if leb 16 (length dat) then fold_word (bit_or or1 or2) else 0 in
    ltb (tail_loop rest orall) 0x80

-- vorrq_u8 and vmaxvq_u8, on the lanes of a vector.
unfoldable pub vorrq_u8 : List ℕ → List ℕ → List ℕ
vorrq_u8 (a ∷ as') (b ∷ bs) = u8 (bit_or a b) ∷ vorrq_u8 as' bs
vorrq_u8 [] bs = []
vorrq_u8 as' [] = []

unfoldable pub vmaxvq_u8 : List ℕ → ℕ
vmaxvq_u8 [] = 0
vmaxvq_u8 (a ∷ as') = max a (vmaxvq_u8 as')

-- The loop over 32 bytes at a time, on fuel.
unfoldable pub neon_loop : ℕ → List ℕ → List ℕ → List ℕ → List ℕ × List ℕ × List ℕ
neon_loop zero dat or1 or2 = (or1, or2, dat)
neon_loop (suc fuel) dat or1 or2 =
    let rest =
      neon_loop fuel (drop 32 dat) (vorrq_u8 or1 (take 16 dat))
        (vorrq_u8 or2 (take 16 (drop 16 dat))) in
    if leb 32 (length dat) then rest else (or1, or2, dat)

unfoldable pub ascii_neon : List ℕ → Bool
ascii_neon dat =
    let (or1, or2, rest) = neon_loop (length dat) dat (replicate 16 0) (replicate 16 0) in
    if leb 32 (length dat)
    then (if leb 0x80 (vmaxvq_u8 (vorrq_u8 or1 or2)) then false else ascii_u64 rest)
    else ascii_u64 dat

-- `load_test_buf`: `left` bytes from the value `v` on.
unfoldable pub test_bytes : ℕ → ℕ → List ℕ
test_bytes zero v = []
test_bytes (suc left) v = v ∷ test_bytes left (bit_and (u8 (v + 1)) 0x7f)

unfoldable pub load_test_buf : ℕ → List ℕ
load_test_buf len = test_bytes len 0

-- The negative part of `test` from the byte `i` on: `error`, and the buffer.
unfoldable pub negative_loop : (List ℕ → Bool) → ℕ → ℕ → Bool → List ℕ → Bool × List ℕ
negative_loop func zero i error dat = (error, dat)
negative_loop func (suc left) i error dat =
    let dat1 = set dat i (u8 (get_or dat i 0 + 0x80)) in
    let dat2 = set dat1 i (u8 (get_or dat1 i 0 + 256 - 0x80)) in
    negative_loop func left (i + 1) (error || func dat1) dat2

-- `test`: whether it prints "pass", and the buffer as it leaves it.
unfoldable pub test : (List ℕ → Bool) → List ℕ → Bool × List ℕ
test func dat =
    let error = not (func dat) in
    let (error', dat') = negative_loop func (length dat) 0 error dat in
    if ltb (length dat) (100 * 1024) then (not error', dat') else (not error, dat)
