-- ===== src/Pext/Bits.antt =====
-- The bits that a mask selects, and the number that they make.
use mytests.Base.{
  ℕ, zero, suc, ◌+◌, ◌*◌, ◌/◌, ◌%◌, ◌^◌, ◌≤◌, ◌<◌, ◌≡◌, refl, ap, sym, ◌∙◌, arith, inl, inr,
}
use mytests.Base.{List, [], ◌∷◌, ◌++◌, ◌==◌, if◌then◌else◌, length, length-append, All, Bool-cases}
use native.Mathlib.Nat.{mul_assoc, mul_comm, pow-suc, div-div-eq-div-mul, pow-succ'}
use mytests.Pext.Defs.{popcount}

-- The bits of `word` at the places of the `n` low bits that are set in `mask`, the lowest one first.
unfoldable pub select : ℕ → ℕ → ℕ → List ℕ
select zero mask word = []
select (suc n) mask word =
    let rest = select n (mask / 2) (word / 2) in if mask % 2 == 1 then (word % 2) ∷ rest else rest

unfoldable pub value : List ℕ → ℕ
value [] = 0
value (b ∷ bits) = b + 2 * value bits

abbrev pub IsBit : ℕ → Type 0
IsBit b = b < 2

pub select-IsBit : (n mask word : ℕ) → All IsBit (select n mask word)
unfolding select
select-IsBit zero mask word = tt
select-IsBit (suc n) mask word = elim (Bool-cases (mask % 2 == 1)) [
  | inl e ↦ rw (e, select) (omega arith, select-IsBit n (mask / 2) (word / 2))
  | inr e ↦ rw (e, select) (select-IsBit n (mask / 2) (word / 2))
]

pub length-select : (n mask word : ℕ) → length (select n mask word) ≡ popcount n mask
unfolding select popcount
length-select zero mask word = refl
length-select (suc n) mask word = ground (arith, length-select n (mask / 2) (word / 2))

double : (k c : ℕ) → 2 * (2 ^ k * c) ≡ 2 ^ suc k * c
double k c = sym (mul_assoc 2 (2 ^ k) c) ∙ ap (λ (t : ℕ). t * c) (omega (arith, pow-suc 2 k))

pub value-append : (xs ys : List ℕ) → value (xs ++ ys) ≡ value xs + 2 ^ length xs * value ys
unfolding value
value-append [] ys = omega arith
value-append (x ∷ xs) ys = omega (arith, value-append xs ys, double (length xs) (value ys))

pub value-less : (bits : List ℕ) → All IsBit bits → value bits < 2 ^ length bits
unfolding value
value-less [] h = omega arith
value-less (b ∷ bits) (h, hs) = omega (arith, h, value-less bits hs, pow-suc 2 (length bits))

-- The quotient by a power of two, one bit later.
later : (k m : ℕ) → m / 2 / 2 ^ k ≡ m / 2 ^ suc k
later k m = div-div-eq-div-mul m 2 (2 ^ k) ∙ ap (λ (t : ℕ). m / t) (sym (pow-succ' 2 k))

pub select-split :
    (k n mask word : ℕ)
    → select (k + n) mask word ≡ select k mask word ++ select n (mask / 2 ^ k) (word / 2 ^ k)
unfolding select
select-split zero n mask word =
    let whole_mask : mask / 2 ^ 0 ≡ mask = omega arith in
    let whole_data : word / 2 ^ 0 ≡ word = omega arith in
    let count : 0 + n ≡ n = omega arith in rw (whole_mask, whole_data, count) refl
select-split (suc k) n mask word =
    let count : suc k + n ≡ suc (k + n) = omega arith in
    let ih = select-split k n (mask / 2) (word / 2) in
    elim (Bool-cases (mask % 2 == 1)) [
      | inl e ↦
          rw (count, select, e)
            (ap (λ (t : List ℕ). (word % 2) ∷ t) (rw (later k mask, later k word) at ih))
      | inr e ↦ rw (count, select, e) (rw (later k mask, later k word) at ih)
    ]

pub select-zero : (n word : ℕ) → select n 0 word ≡ []
unfolding select
select-zero zero word = refl
select-zero (suc n) word = ground (arith, select-zero n (word / 2))

-- Only the low bits matter.
pub select-low : (k c d a b : ℕ) → select k (c * 2 ^ k + a) (d * 2 ^ k + b) ≡ select k a b
unfolding select
select-low zero c d a b = refl
select-low (suc k) c d a b = ground (
  arith,
  select-low k c d (a / 2) (b / 2),
  pow-suc 2 k,
  double k c,
  double k d,
  mul_comm c (2 ^ k),
  mul_comm d (2 ^ k),
  mul_comm c (2 ^ suc k),
  mul_comm d (2 ^ suc k),
)

pub popcount-split :
    (k n mask : ℕ) → popcount (k + n) mask ≡ popcount k mask + popcount n (mask / 2 ^ k)
popcount-split k n mask = omega (
  arith,
  length-select (k + n) mask 0,
  length-select k mask 0,
  length-select n (mask / 2 ^ k) (0 / 2 ^ k),
  ap length (select-split k n mask 0),
  length-append (select k mask 0) (select n (mask / 2 ^ k) (0 / 2 ^ k)),
)

pub popcount-le : (n mask : ℕ) → popcount n mask ≤ n
unfolding popcount
popcount-le zero mask = omega arith
popcount-le (suc n) mask = omega (arith, popcount-le n (mask / 2))
