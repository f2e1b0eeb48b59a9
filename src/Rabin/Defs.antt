-- ===== src/Rabin/Defs.antt =====
-- The computations in main of rabin.c, in `unsigned long`.
use mytests.Base.{ℕ, ◌+◌, ◌*◌, ◌%◌}
use mytests.Base.Word.{u64}

unfoldable pub two_steps : ℕ → ℕ → ℕ → ℕ → ℕ → ℕ
two_steps a b y0 x0 x1 = let y1 = u64 (u64 (y0 * a) + x0) % b in u64 (u64 (y1 * a) + x1) % b

unfoldable pub one_step : ℕ → ℕ → ℕ → ℕ → ℕ → ℕ
one_step a b y0 x0 x1 =
    let a1 = a % b in let a2 = u64 (a * a) % b in u64 (u64 (u64 (a2 * y0) + u64 (a1 * x0)) + x1) % b
