-- ===== src/Pext/Simulation.antt =====
-- The table and the loop of cpp/pext.cc extract the bits that the mask selects.
use mytests.Base.{
  ℕ, zero, suc, ◌+◌, ◌-◌, ◌*◌, ◌/◌, ◌%◌, ◌^◌, ◌≤◌, ◌<◌, ◌≡◌, refl, ap, sym, ◌∙◌, arith, inl, inr,
  bit_and, bit_or,
}
use mytests.Base.{
  List, [], ◌++◌, ◌==◌, get_or, length, length-append, All, Bool-cases, ==_iff, true,
}
use mytests.Base.Word.{u64, IsU64, ◌<<<◌, ◌>>>◌}
use mytests.Base.Digits.{bit_and_low}
use mathlib.Core.List.{append_assoc, append-nil}
use native.Mathlib.Nat.{mul_comm, pow-suc, pow-le-pow_right, mod-eq_of_lt}
use mytests.Pext.Defs.{lookup_bits, gen_pext_lookup_table, popcount, simu_loop, pext_u64_simu}
use mytests.Pext.Table.{All-append, or-append, lookup_value}
use mytests.Pext.Bits.{
  select, value, IsBit, select-IsBit, length-select, value-append, value-less, select-split,
  select-zero, select-low, popcount-split, popcount-le,
}

-- The count of bits of the six low ones, which the builtin makes of 32.
popcount_low :
    (mask : ℕ) → popcount 32 (bit_and mask (2 ^ lookup_bits - 1)) ≡ popcount lookup_bits mask
popcount_low mask =
    let low = select-low lookup_bits (mask / 64) 0 (mask % 64) 0 in
    let whole : mask / 64 * 2 ^ lookup_bits + mask % 64 ≡ mask = omega arith in
    let none : mask % 64 / 2 ^ lookup_bits ≡ 0 = omega arith in
    let counted = popcount-split lookup_bits 26 (mask % 64) in
    omega (
      arith,
      ap (popcount 32) (bit_and_low lookup_bits mask),
      rw none at counted,
      length-select 26 0 0,
      ap length (select-zero 26 0),
      length-select lookup_bits mask 0,
      length-select lookup_bits (mask % 64) 0,
      ap length (rw whole at low),
    )

-- One round: the loop appends six bits' worth, and goes on with the rest.
record Rounds (left mask word : ℕ) (acc : List ℕ) : Type 0 where
  chunk : List ℕ
  is_chunk : chunk ≡ select lookup_bits mask word
  bits : All IsBit (acc ++ chunk)
  joined : bit_or (value acc) (u64 (value chunk <<< length acc)) ≡ value (acc ++ chunk)
  longer : length acc + popcount lookup_bits mask ≡ length (acc ++ chunk)
  split :
      select (lookup_bits * suc left) mask word
      ≡ chunk ++ select (lookup_bits * left) (mask >>> lookup_bits) (word >>> lookup_bits)
  fits : length (acc ++ chunk) + popcount (lookup_bits * left) (mask >>> lookup_bits) ≤ 64

round :
    (left mask word : ℕ) (acc : List ℕ)
    → All IsBit acc
    → length acc + popcount (lookup_bits * suc left) mask ≤ 64
    → Rounds left mask word acc
round left mask word acc h fits =
    let chunk = select lookup_bits mask word in
    let next : lookup_bits * suc left ≡ lookup_bits + lookup_bits * left = omega arith in
    let bits = All-append IsBit acc chunk h (select-IsBit lookup_bits mask word) in
    let size = length-append acc chunk in
    let counted = length-select lookup_bits mask word in
    let total = popcount-split lookup_bits (lookup_bits * left) mask in
    let total' : popcount (lookup_bits * suc left) mask
        ≡ popcount lookup_bits mask + popcount (lookup_bits * left) (mask / 2 ^ lookup_bits) =
      ap (λ (t : ℕ). popcount t mask) next ∙ total in
    let small : length (acc ++ chunk) ≤ 64 = omega (arith, size, counted, total', fits) in
    let joined = or-append acc chunk h in
    let bounded : value (acc ++ chunk) < 2 ^ 64 =
      omega (arith, value-less (acc ++ chunk) bits, pow-le-pow_right {n = 2} (omega arith) small) in
    let whole : value chunk <<< length acc < 2 ^ 64 =
      omega (arith, bounded, value-append acc chunk, mul_comm (value chunk) (2 ^ length acc)) in
    record {
      chunk = chunk;
      is_chunk = refl;
      bits = bits;
      joined = ap (bit_or (value acc)) (mod-eq_of_lt whole) ∙ joined;
      longer = omega (arith, size, counted);
      split =
          ap (λ (t : ℕ). select t mask word) next
          ∙ select-split lookup_bits (lookup_bits * left) mask word;
      fits = omega (arith, size, counted, total', fits);
    }

pow_six : (n : ℕ) → 2 ^ (lookup_bits * suc n) ≡ 64 * 2 ^ (lookup_bits * n)
pow_six n =
    let k = lookup_bits * n in
    let six : lookup_bits * suc n ≡ suc (suc (suc (suc (suc (suc k))))) = omega arith in
    omega (
      arith,
      ap (λ (t : ℕ). 2 ^ t) six,
      pow-suc 2 (suc (suc (suc (suc (suc k))))),
      pow-suc 2 (suc (suc (suc (suc k)))),
      pow-suc 2 (suc (suc (suc k))),
      pow-suc 2 (suc (suc k)),
      pow-suc 2 (suc k),
      pow-suc 2 k,
    )

out_same :
    (left mask word : ℕ) (acc : List ℕ) (r : Rounds left mask word acc)
    → bit_or (value acc) (
        u64 (
          get_or
            (get_or gen_pext_lookup_table (bit_and mask (2 ^ lookup_bits - 1)) [])
            (bit_and word (2 ^ lookup_bits - 1))
            0
          <<< length acc))
      ≡ value (acc ++ r.chunk)
out_same left mask word acc r =
    ap (λ (t : ℕ). bit_or (value acc) (u64 (t <<< length acc)))
      (lookup_value mask word ∙ ap value (sym r.is_chunk))
    ∙ r.joined

len_same :
    (left mask word : ℕ) (acc : List ℕ) (r : Rounds left mask word acc)
    → length acc + popcount 32 (bit_and mask (2 ^ lookup_bits - 1)) ≡ length (acc ++ r.chunk)
len_same left mask word acc r = omega (arith, popcount_low mask, r.longer)

-- The round that sees an empty rest of the mask ends the loop.
last :
    (left mask word : ℕ) (acc : List ℕ)
    → All IsBit acc
    → length acc + popcount (lookup_bits * suc left) mask ≤ 64
    → mask >>> lookup_bits ≡ 0
    → simu_loop gen_pext_lookup_table (suc left) mask word (value acc) (length acc)
      ≡ value (acc ++ select (lookup_bits * suc left) mask word)
unfolding simu_loop
last left mask word acc h fits none =
    let r = round left mask word acc h fits in
    let e : (mask >>> lookup_bits == 0) ≡ true = (==_iff (mask >>> lookup_bits) 0).1 none in
    let no_more =
      ap (λ (t : ℕ). select (lookup_bits * left) t (word >>> lookup_bits)) none
      ∙ select-zero (lookup_bits * left) (word >>> lookup_bits) in
    let whole : select (lookup_bits * suc left) mask word ≡ r.chunk =
      r.split ∙ ap (λ (t : List ℕ). r.chunk ++ t) no_more ∙ append-nil r.chunk in
    rw (e) (out_same left mask word acc r ∙ ap (λ (t : List ℕ). value (acc ++ t)) (sym whole))

-- With fewer bits to go than there are left in a word, the loop appends the bits that are selected.
simu_loop-value :
    (left mask word : ℕ) (acc : List ℕ)
    → All IsBit acc
    → length acc + popcount (lookup_bits * suc left) mask ≤ 64
    → mask < 2 ^ (lookup_bits * suc left)
    → simu_loop gen_pext_lookup_table (suc left) mask word (value acc) (length acc)
      ≡ value (acc ++ select (lookup_bits * suc left) mask word)
unfolding simu_loop
simu_loop-value zero mask word acc h fits less =
    last zero mask word acc h fits (omega (arith, less))
simu_loop-value (suc left) mask word acc h fits less =
    elim (Bool-cases (mask >>> lookup_bits == 0)) [
      | inl e ↦ last (suc left) mask word acc h fits ((==_iff (mask >>> lookup_bits) 0).0 e)
      | inr e ↦
          let r = round (suc left) mask word acc h fits in
          let ih =
            simu_loop-value left (mask >>> lookup_bits) (word >>> lookup_bits) (acc ++ r.chunk)
              r.bits r.fits (omega (arith, less, pow_six (suc left))) in
          rw (e, out_same (suc left) mask word acc r, len_same (suc left) mask word acc r)
            (ih
              ∙ ap value (
                  append_assoc acc r.chunk
                    (select (lookup_bits * suc left) (mask >>> lookup_bits) (word >>> lookup_bits))
                  ∙ ap (λ (t : List ℕ). acc ++ t) (sym r.split)))
    ]

-- For a mask of 64 bits, the simulation returns what PEXT does: the bits of the word at the places that are
-- set in the mask, moved together, with the lowest one first.
pub pext_u64_simu-select :
    (mask word : ℕ)
    → IsU64 mask
    → pext_u64_simu gen_pext_lookup_table mask word ≡ value (select 64 mask word)
unfolding pext_u64_simu value
pext_u64_simu-select mask word h =
    let none : mask / 2 ^ 64 ≡ 0 = omega (arith, h) in
    let no_bits = ap (λ (t : ℕ). select 2 t (word / 2 ^ 64)) none ∙ select-zero 2 (word / 2 ^ 64) in
    let split : select 66 mask word ≡ select 64 mask word =
      select-split 64 2 mask word
      ∙ ap (λ (t : List ℕ). select 64 mask word ++ t) no_bits
      ∙ append-nil (select 64 mask word) in
    let counted : length {A = ℕ} [] + popcount 66 mask ≤ 64 = omega (
      arith,
      length-select 66 mask word,
      ap length split,
      length-select 64 mask word,
      popcount-le 64 mask,
    ) in
    simu_loop-value 10 mask word [] tt counted (omega (arith, h)) ∙ ap value split
