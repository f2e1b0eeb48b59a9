-- ===== src/Pext/Table.antt =====
-- The entries of the table of cpp/pext.cc.
use mytests.Base.{
  ℕ, zero, suc, ◌+◌, ◌-◌, ◌*◌, ◌/◌, ◌%◌, ◌^◌, ◌<◌, ◌≡◌, ap, sym, ◌∙◌, arith, inl, inr, bit_and,
  bit_or,
}
use mytests.Base.{
  List, [], ◌∷◌, ◌++◌, ◌==◌, get_or, length, length-append, All, Bool-cases, true, false,
}
use mytests.Base.Word.{◌<<<◌}
use mytests.Base.Digits.{bit_and_high, bit_and_low, bit_or_split, zero-bit_or, bit_or-zero}
use mathlib.Core.List.{append_assoc, append-nil}
use mathlib.Core.Path.{ap₂}
use native.Mathlib.Nat.{mul_comm, one-le-pow, div-div-eq-div-mul, pow-suc}
use mytests.Pext.Defs.{lookup_bits, entry_loop, fill_row, fill_table, gen_pext_lookup_table}
use mytests.Pext.Bits.{select, value, IsBit, value-append, value-less, select-low}

pub All-append : (P : ℕ → Type 0) (xs ys : List ℕ) → All P xs → All P ys → All P (xs ++ ys)
All-append P [] ys _ k = k
All-append P (x ∷ xs) ys (h, hs) k = (h, All-append P xs ys hs k)

and_one : (x : ℕ) → bit_and x 1 ≡ x % 2
and_one x = bit_and_low 1 x

-- `value | (more << len)` appends bits.
pub or-append :
    (acc more : List ℕ)
    → All IsBit acc
    → bit_or (value acc) (value more <<< length acc) ≡ value (acc ++ more)
or-append acc more h =
    let len = length acc in
    let less = value-less acc h in
    let join =
      bit_or_split len 0 (value more) (value acc) 0 less (one-le-pow len 2 (omega arith)) in
    let low : 0 * 2 ^ len + value acc ≡ value acc = omega arith in
    let high : value more * 2 ^ len + 0 ≡ value more <<< len = omega arith in
    let joined = rw (low, high, zero-bit_or (value more), bit_or-zero (value acc)) at join in
    omega (arith, joined, value-append acc more, mul_comm (value more) (2 ^ len))

-- The test of bit `i`.
bit_test : (mask i : ℕ) → (bit_and mask (1 <<< i) == 0) ≡ (mask / 2 ^ i % 2 == 0)
bit_test mask i =
    let shifted = bit_and_high i mask 1 in
    let one = and_one (mask / 2 ^ i) in
    let power = one-le-pow i 2 (omega arith) in
    elim (Bool-cases (mask / 2 ^ i % 2 == 0)) [
      | inl e ↦ ground (arith, e, shifted, one)
      | inr e ↦
          let is_one : mask / 2 ^ i % 2 ≡ 1 = ground (arith, e) in
          ground (arith, e, shifted, one, is_one, power)
    ]

next_bits : (x i : ℕ) → x / 2 ^ i / 2 ≡ x / 2 ^ suc i
next_bits x i = div-div-eq-div-mul x (2 ^ i) 2 ∙ ap (λ (t : ℕ). x / t) (sym (pow-suc 2 i))

single : (b : ℕ) → value (b ∷ []) ≡ b
unfolding value
single b = omega arith

entry_loop-value :
    (left i mask word : ℕ) (acc : List ℕ)
    → All IsBit acc
    → entry_loop left i mask word (value acc) (length acc)
      ≡ value (acc ++ select left (mask / 2 ^ i) (word / 2 ^ i))
unfolding entry_loop select
entry_loop-value zero i mask word acc h = ap value (sym (append-nil acc))
entry_loop-value (suc left) i mask word acc h =
    let m = mask / 2 ^ i in
    let d = word / 2 ^ i in
    elim (Bool-cases (m % 2 == 1)) [
      | inl e ↦
          let not_clear : (bit_and mask (1 <<< i) == 0) ≡ false =
            bit_test mask i ∙ ground (arith, e) in
          let bit = d % 2 in
          let joined = or-append acc (bit ∷ []) h in
          let one_bit : value (bit ∷ []) ≡ bit = single bit in
          let longer : length (acc ++ bit ∷ []) ≡ suc (length acc) =
            omega (arith, length-append acc (bit ∷ [])) in
          let ih =
            entry_loop-value left (suc i) mask word (acc ++ bit ∷ [])
              (All-append IsBit acc (bit ∷ []) h (omega arith, tt)) in
          rw (not_clear, e, and_one d, next_bits mask i, next_bits word i)
            (step (rw one_bit at joined) longer (rw (append_assoc acc (bit ∷ [])) at ih))
      | inr e ↦
          let is_clear : (bit_and mask (1 <<< i) == 0) ≡ true =
            bit_test mask i ∙ ground (arith, e) in
          rw (is_clear, e, next_bits mask i, next_bits word i)
            (entry_loop-value left (suc i) mask word acc h)
    ]
  where
    step :
        {v len len' : ℕ} {r : ℕ} {bits : ℕ}
        → v ≡ bits
        → len' ≡ len
        → entry_loop left (suc i) mask word bits len' ≡ r
        → entry_loop left (suc i) mask word v len ≡ r
    step ev el er = rw (ev, sym el) er

get_or-fill_row :
    (left mask word k : ℕ)
    → k < left
    → get_or (fill_row left mask word) k 0 ≡ entry_loop lookup_bits 0 mask (word + k) 0 0
unfolding fill_row
get_or-fill_row zero mask word k h = absurd (omega arith)
get_or-fill_row (suc left) mask word zero h =
    let same : word ≡ word + 0 = omega arith in
    ap (λ (t : ℕ). entry_loop lookup_bits 0 mask t 0 0) same
get_or-fill_row (suc left) mask word (suc k) h =
    let next : suc word + k ≡ word + suc k = omega arith in
    rw next at (get_or-fill_row left mask (suc word) k (omega arith))

get_or-fill_table :
    (left mask k : ℕ)
    → k < left
    → get_or (fill_table left mask) k [] ≡ fill_row (2 ^ lookup_bits) (mask + k) 0
unfolding fill_table
get_or-fill_table zero mask k h = absurd (omega arith)
get_or-fill_table (suc left) mask zero h =
    let same : mask ≡ mask + 0 = omega arith in ap (λ (t : ℕ). fill_row (2 ^ lookup_bits) t 0) same
get_or-fill_table (suc left) mask (suc k) h =
    let next : suc mask + k ≡ mask + suc k = omega arith in
    rw next at (get_or-fill_table left (suc mask) k (omega arith))

entry_loop-select :
    (left mask word : ℕ) → entry_loop left 0 mask word 0 0 ≡ value (select left mask word)
unfolding value
entry_loop-select left mask word =
    let whole_mask : mask / 2 ^ 0 ≡ mask = omega arith in
    let whole_word : word / 2 ^ 0 ≡ word = omega arith in
    entry_loop-value left 0 mask word [] tt
    ∙ ap₂ (λ (m d : ℕ). value (select left m d)) whole_mask whole_word

entry_value :
    (mask word : ℕ)
    → mask < 64
    → word < 64
    → get_or (get_or gen_pext_lookup_table mask []) word 0 ≡ value (select lookup_bits mask word)
unfolding gen_pext_lookup_table
entry_value mask word hm hw =
    let row = get_or-fill_table (2 ^ lookup_bits) 0 mask (omega (arith, hm)) in
    let entry = get_or-fill_row (2 ^ lookup_bits) mask 0 word (omega (arith, hw)) in
    let here : 0 + mask ≡ mask = omega arith in
    let there : 0 + word ≡ word = omega arith in
    ap (λ (t : List ℕ). get_or t word 0) (row ∙ ap (λ (t : ℕ). fill_row (2 ^ lookup_bits) t 0) here)
    ∙ entry
    ∙ ap (λ (t : ℕ). entry_loop lookup_bits 0 mask t 0 0) there
    ∙ entry_loop-select lookup_bits mask word

-- The table entry of six bits of the mask and of the word.
pub lookup_value :
    (mask word : ℕ)
    → get_or
        (get_or gen_pext_lookup_table (bit_and mask (2 ^ lookup_bits - 1)) [])
        (bit_and word (2 ^ lookup_bits - 1))
        0
      ≡ value (select lookup_bits mask word)
lookup_value mask word =
    let low = select-low lookup_bits (mask / 64) (word / 64) (mask % 64) (word % 64) in
    let whole_mask : mask / 64 * 2 ^ lookup_bits + mask % 64 ≡ mask = omega arith in
    let whole_word : word / 64 * 2 ^ lookup_bits + word % 64 ≡ word = omega arith in
    rw (bit_and_low lookup_bits mask, bit_and_low lookup_bits word)
      (entry_value (mask % 64) (word % 64) (omega arith) (omega arith)
        ∙ ap value (sym (rw (whole_mask, whole_word) at low)))
