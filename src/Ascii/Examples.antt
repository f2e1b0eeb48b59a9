-- ===== src/Ascii/Examples.antt =====
-- Buffers tested by ascii.c, and the theorems there.
use mytests.Base.{ℕ, ◌≡◌, refl, arith, false, List, [], ◌∷◌, ◌++◌, replicate}
use mytests.Ascii.Defs.{load, ascii_u64, u64_loop, fold_word, tail_loop, ascii_neon}
use mytests.Ascii.Words.{all_ascii, ascii_u64-all_ascii}
use mytests.Ascii.Lanes.{ascii_neon-ascii_u64}

abbrev buffer : List ℕ
buffer = replicate 20 0x41 ++ (0xc3 ∷ 0xa4 ∷ replicate 15 0x7f)

little_endian : load 8 (1 ∷ 2 ∷ 0 ∷ 0 ∷ 0 ∷ 0 ∷ 0 ∷ 0x80 ∷ []) ≡ 0x8000000000000201
unfolding load
little_endian = refl

not_ascii : ascii_u64 buffer ≡ false
unfolding ascii_u64 u64_loop load fold_word tail_loop
not_ascii = refl

ascii_u64-all_ascii_example : ascii_u64 buffer ≡ all_ascii buffer
ascii_u64-all_ascii_example = ascii_u64-all_ascii buffer (omega arith)

ascii_neon-ascii_u64_example : ascii_neon buffer ≡ ascii_u64 buffer
ascii_neon-ascii_u64_example = ascii_neon-ascii_u64 buffer (omega arith)
