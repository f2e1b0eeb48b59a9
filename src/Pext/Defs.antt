-- ===== src/Pext/Defs.antt =====
-- gen_pext_lookup_table and pext_u64_simu of cpp/pext.cc.
use mytests.Base.{ℕ, zero, suc, ◌+◌, ◌/◌, ◌%◌, ◌^◌, ◌-◌, bit_and, bit_or}
use mytests.Base.{List, [], ◌∷◌, ◌==◌, if◌then◌else◌, get_or}
use mytests.Base.Word.{u64, ◌<<<◌, ◌>>>◌}

abbrev pub lookup_bits : ℕ
lookup_bits = 6

-- An entry of the table: the loop over the bits, with `left` of them to go from `i` on.
unfoldable pub entry_loop : ℕ → ℕ → ℕ → ℕ → ℕ → ℕ → ℕ
entry_loop zero i mask word bit_value bit_len = bit_value
entry_loop (suc left) i mask word bit_value bit_len =
    let clear = entry_loop left (suc i) mask word bit_value bit_len in
    let bit = bit_and (word >>> i) 1 <<< bit_len in
    let set = entry_loop left (suc i) mask word (bit_or bit_value bit) (suc bit_len) in
    if bit_and mask (1 <<< i) == 0 then clear else set

-- The entries of a mask, with `left` of them to go from `word` on.
unfoldable pub fill_row : ℕ → ℕ → ℕ → List ℕ
unfolding entry_loop
fill_row zero mask word = []
fill_row (suc left) mask word =
    entry_loop lookup_bits 0 mask word 0 0 ∷ fill_row left mask (suc word)

unfoldable pub fill_table : ℕ → ℕ → List (List ℕ)
unfolding fill_row
fill_table zero mask = []
fill_table (suc left) mask = fill_row (2 ^ lookup_bits) mask 0 ∷ fill_table left (suc mask)

unfoldable pub gen_pext_lookup_table : List (List ℕ)
unfolding fill_table
gen_pext_lookup_table = fill_table (2 ^ lookup_bits) 0

-- `__builtin_popcount` of the `n` low bits.
unfoldable pub popcount : ℕ → ℕ → ℕ
popcount zero mask = 0
popcount (suc n) mask = mask % 2 + popcount n (mask / 2)

-- The fixed loop, with `left` rounds to go.
unfoldable pub simu_loop : List (List ℕ) → ℕ → ℕ → ℕ → ℕ → ℕ → ℕ
simu_loop pext_table zero mask word out out_len = out
simu_loop pext_table (suc left) mask word out out_len =
    let mask_value = bit_and mask (2 ^ lookup_bits - 1) in
    let value = get_or (get_or pext_table mask_value []) (bit_and word (2 ^ lookup_bits - 1)) 0 in
    let out' = bit_or out (u64 (value <<< out_len)) in
    let rest =
      simu_loop pext_table left (mask >>> lookup_bits) (word >>> lookup_bits) out'
        (out_len + popcount 32 mask_value) in
    if mask >>> lookup_bits == 0 then out' else rest

unfoldable pub pext_u64_simu : List (List ℕ) → ℕ → ℕ → ℕ
unfolding simu_loop
pext_u64_simu pext_table mask word =
    simu_loop pext_table ((64 + lookup_bits - 1) / lookup_bits) mask word 0 0
