-- ===== src/Utf8Len/Defs.antt =====
-- The functions of utf8-len.c. A `char` is a byte below 256, negative from 0x80 on; a buffer is a
-- list of them, `data_len` its length.
use mytests.Base.{ℕ, zero, suc, ◌+◌, ◌-◌, Bool, true, false, not, ◌||◌, List, [], ◌∷◌, bit_and}
use mytests.Base.{ltb, ◌==◌, if◌then◌else◌, get_or, drop, length}
use mytests.Base.Word.{◌>>>◌}

unfoldable pub utf8_char_length : ℕ → ℕ
utf8_char_length c =
    if ltb c 0x80
    then 1
    else if bit_and c 0xe0 == 0xc0
    then 2
    else if bit_and c 0xf0 == 0xe0
    then 3
    else if bit_and c 0xf8 == 0xf0
    then 4
    else 0

abbrev pub tbl : List ℕ
tbl =
    1 ∷ 1 ∷ 1 ∷ 1 ∷ 1 ∷ 1 ∷ 1 ∷ 1 ∷ 1 ∷ 1 ∷ 1 ∷ 1 ∷ 1 ∷ 1 ∷ 1 ∷ 1 ∷ 0 ∷ 0 ∷ 0 ∷ 0 ∷ 0 ∷ 0 ∷ 0 ∷ 0
    ∷ 2 ∷ 2 ∷ 2 ∷ 2 ∷ 3 ∷ 3 ∷ 4 ∷ 0 ∷ []

unfoldable pub utf8_char_length_tbl : ℕ → ℕ
utf8_char_length_tbl c = get_or tbl (c >>> 3) 0

-- How a count ends. `error` is the message and `exit(1)`; `stuck` is no behaviour of the C code: the
-- loop ran out of fuel.
pub data Counted : Type 0 where
  counted : ℕ → Counted
  error stuck : Counted

-- The loop over the continuation bytes, which starts at `data + i + 1`; false is an error.
unfoldable pub check_conts : ℕ → List ℕ → Bool
check_conts zero bs = true
check_conts (suc left) bs =
    let rest = check_conts left (drop 1 bs) in
    if not (bit_and (get_or bs 0 0) 0xc0 == 0x80) then false else rest

-- The loop that utf8_length and utf8_length_tbl share but for the call of `char_length`, from
-- `data + i` on.
unfoldable pub length_loop : (ℕ → ℕ) → ℕ → List ℕ → ℕ → Counted
length_loop char_length fuel [] count = counted count
length_loop char_length zero (b ∷ bs) count = stuck
length_loop char_length (suc fuel) (b ∷ bs) count =
    let char_len = char_length b in
    let rest = length_loop char_length fuel (drop char_len (b ∷ bs)) (count + 1) in
    if (char_len == 0) || ltb (length (b ∷ bs)) char_len
    then error
    else if not (check_conts (char_len - 1) bs)
    then error
    else rest

unfoldable pub utf8_length : List ℕ → Counted
utf8_length dat = length_loop utf8_char_length (length dat) dat 0

unfoldable pub utf8_length_tbl : List ℕ → Counted
utf8_length_tbl dat = length_loop utf8_char_length_tbl (length dat) dat 0
