-- ===== src/MyDd/Regions.antt =====
-- The regions of the threads of mysql/io-bench/mydd.cc.
use mytests.Base.{
  ℕ, zero, suc, ◌+◌, ◌*◌, ◌/◌, ◌≤◌, ◌<◌, ◌≡◌, ap, sym, ◌∙◌, arith, Bool, true, false,
}
use mytests.Base.{List, [], ◌∷◌, All}
use native.Mathlib.Nat.{
  mul_comm, mul_assoc, mul-le-mul_left, mul-le-mul_right, div-mul-le_self, mul-suc,
  le-div_iff_mul-le,
}
use mytests.MyDd.Defs.{block_size, dio_start, wrote, dio_loop, dio_thread}

-- A block that lies between two offsets.
abbrev pub Within : ℕ → ℕ → ℕ → Type 0
Within low high offset = (low ≤ offset) × (offset + block_size ≤ high)

dio_loop-Within :
    (left offset low high : ℕ) (calls : List Bool)
    → low ≤ offset
    → offset + left * block_size ≤ high
    → All (Within low high) (dio_loop left offset calls).1
unfolding dio_loop wrote
dio_loop-Within zero offset low high calls h k = tt
dio_loop-Within (suc left) offset low high [] h k = tt
dio_loop-Within (suc left) offset low high (false ∷ calls) h k = tt
dio_loop-Within (suc left) offset low high (true ∷ calls) h k = (
  (h, omega (arith, k)),
  dio_loop-Within left (offset + block_size) low high calls (omega (arith, h)) (omega (arith, k)),
)

-- The blocks of a thread fit the region up to the next one's start.
region_fits : (blocks n : ℕ) → 0 < n → blocks / n * block_size ≤ blocks * block_size / n
region_fits blocks n pos =
    let swap : blocks / n * block_size * n ≡ blocks / n * n * block_size =
      mul_assoc (blocks / n) block_size n
      ∙ ap (λ (t : ℕ). blocks / n * t) (mul_comm block_size n)
      ∙ sym (mul_assoc (blocks / n) n block_size) in
    (le-div_iff_mul-le pos).1
      (omega (arith, swap, mul-le-mul_right block_size (div-mul-le_self blocks n)))

-- Whatever the writes do, a thread of evaluate_dio writes between its start and the start of the next
-- thread, and this is in the file; so no two threads write the same byte.
pub dio_thread-Within :
    (blocks n i j : ℕ) (calls : List Bool)
    → i < j
    → j ≤ n
    → All (Within (dio_start blocks n i) (dio_start blocks n j)) (dio_thread blocks n i calls).1
      × (dio_start blocks n j ≤ blocks * block_size)
unfolding dio_thread dio_start
dio_thread-Within blocks n i j calls h k =
    let part = blocks * block_size / n in
    let next : part * i + part ≤ part * j = omega (arith, mul-le-mul_left part h, mul-suc part i) in
    let fits = region_fits blocks n (omega (arith, h, k)) in
    let all_fit : part * j ≤ part * n = mul-le-mul_left part k in
    (
      dio_loop-Within (blocks / n) (part * i) (part * i) (part * j) calls (omega arith)
          (omega (arith, next, fits)),
      omega (arith, all_fit, div-mul-le_self (blocks * block_size) n),
    )
