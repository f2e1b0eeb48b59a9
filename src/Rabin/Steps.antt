-- ===== src/Rabin/Steps.antt =====
-- The two computations of rabin.c agree while no product overflows.
use mytests.Base.{ℕ, ◌+◌, ◌*◌, ◌/◌, ◌%◌, ◌^◌, ◌<◌, ◌≡◌, ap, sym, ◌∙◌, arith}
use mytests.Base.Word.{u64}
use native.Mathlib.Nat.{
  mul_comm, mul_assoc, add-mul, mod-add-mod, add-mul-mod_self_left, mod-add-div,
}
use mytests.Rabin.Defs.{two_steps, one_step}

-- A factor may be reduced.
mod-mul : (a k b : ℕ) → a % b * k % b ≡ a * k % b
mod-mul a k b =
    let whole : a * k ≡ a % b * k + b * (a / b * k) =
      ap (λ (t : ℕ). t * k) (sym (mod-add-div a b))
      ∙ add-mul (a % b) (b * (a / b)) k
      ∙ ap (λ (t : ℕ). a % b * k + t) (mul_assoc b (a / b) k) in
    sym (ap (λ (t : ℕ). t % b) whole ∙ add-mul-mod_self_left (a % b * k) b (a / b * k))

-- So may the factor of a summand.
mod-mul_add : (a k c b : ℕ) → (a % b * k + c) % b ≡ (a * k + c) % b
mod-mul_add a k c b =
    sym (mod-add-mod (a % b * k) b c)
    ∙ ap (λ (t : ℕ). (t + c) % b) (mod-mul a k b)
    ∙ mod-add-mod (a * k) b c

exact_steps :
    (a b y x0 x1 : ℕ) → ((y * a + x0) % b * a + x1) % b ≡ (a * a % b * y + (a % b * x0 + x1)) % b
exact_steps a b y x0 x1 =
    let open_product : (y * a + x0) * a + x1 ≡ a * a * y + (a * x0 + x1) =
      omega (arith, add-mul (y * a) x0 a, mul_assoc y a a, mul_comm y (a * a), mul_comm x0 a) in
    let swap : a * x0 + x1 + a * a % b * y ≡ a * a % b * y + (a * x0 + x1) = omega arith in
    let swap' : a % b * x0 + (x1 + a * a % b * y) ≡ a * a % b * y + (a % b * x0 + x1) =
      omega arith in
    let join : a * x0 + (x1 + a * a % b * y) ≡ a * x0 + x1 + a * a % b * y = omega arith in
    mod-mul_add (y * a + x0) a x1 b
    ∙ ap (λ (t : ℕ). t % b) open_product
    ∙ sym (mod-mul_add (a * a) y (a * x0 + x1) b)
    ∙ ap (λ (t : ℕ). t % b) (sym swap)
    ∙ ap (λ (t : ℕ). t % b) (sym join)
    ∙ sym (mod-mul_add a x0 (x1 + a * a % b * y) b)
    ∙ ap (λ (t : ℕ). t % b) swap'

-- When the modulus is not 0 and neither the products and sums of the two steps nor those of the one
-- exceed 64 bits, the one step gives what the two steps give.
pub one_step-two_steps :
    (a b y0 x0 x1 : ℕ)
    → 0 < b
    → y0 * a + x0 < 2 ^ 64
    → (y0 * a + x0) % b * a + x1 < 2 ^ 64
    → a * a < 2 ^ 64
    → a * a % b * y0 + (a % b * x0 + x1) < 2 ^ 64
    → one_step a b y0 x0 x1 ≡ two_steps a b y0 x0 x1
unfolding one_step two_steps
one_step-two_steps a b y0 x0 x1 pos h1 h2 h3 h4 =
    let y1 = (y0 * a + x0) % b in
    let e1 : u64 (u64 (y0 * a) + x0) ≡ y0 * a + x0 = omega (arith, h1) in
    let e2 : u64 (u64 (y1 * a) + x1) ≡ y1 * a + x1 = omega (arith, h2) in
    let e3 : u64 (a * a) ≡ a * a = omega (arith, h3) in
    let e4 : u64 (u64 (u64 (a * a % b * y0) + u64 (a % b * x0)) + x1)
        ≡ a * a % b * y0 + (a % b * x0 + x1) =
      omega (arith, h4) in
    ap (λ (t : ℕ). u64 (u64 (u64 (t % b * y0) + u64 (a % b * x0)) + x1) % b) e3
    ∙ ap (λ (t : ℕ). t % b) e4
    ∙ sym (exact_steps a b y0 x0 x1)
    ∙ ap (λ (t : ℕ). t % b) (sym e2)
    ∙ ap (λ (t : ℕ). u64 (u64 (t % b * a) + x1) % b) (sym e1)
