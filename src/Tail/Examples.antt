-- ===== src/Tail/Examples.antt =====
-- Files read by tlpi/tail.c, and the theorems there.
use mytests.Base.Text.{same_text}
use mytests.Base.{◌≡◌, refl, arith, some, List, [], ◌∷◌}
use mytests.Tail.Defs.{
  Read, got, get_lines_fn, dash_n, at_least_one, parse_byte, parse_loop, parse_newline, read_all,
  start, seek_from, tail_seek,
}
use mytests.Base.{ℕ}
use mytests.Base.Integer.{ℤ, pos, negsuc}
use mytests.Tail.Output.{Copy, copies, output_loop, tail_main, tail_main-last_lines}
use mytests.Base.{drop, replicate}
use mytests.Tail.Seek.{last_lines, text_of}

-- "a\nbc\n\nd\n", in two reads
abbrev reads : List Read
reads = got (97 ∷ 10 ∷ 98 ∷ []) ∷ got (99 ∷ 10 ∷ 10 ∷ 100 ∷ 10 ∷ []) ∷ []

two_lines : tail_seek 2 (7 ∷ 7 ∷ []) reads ≡ some 5
unfolding tail_seek seek_from read_all start parse_newline parse_loop parse_byte
two_lines = refl

-- `-n 0` prints ten lines.
no_lines :
    get_lines_fn (λ _. pos 0) ((116 ∷ []) ∷ dash_n ∷ (48 ∷ []) ∷ (102 ∷ []) ∷ [])
    ≡ some (10, 102 ∷ [])
unfolding get_lines_fn same_text at_least_one
no_lines = refl

-- The second loop reads a byte at a time.
abbrev rounds : List Copy
rounds = replicate 8 (copies 0 255)

tail_main-last_lines_example :
    tail_main 2 (7 ∷ 7 ∷ []) reads rounds
    ≡ some (drop (last_lines 2 (text_of reads)) (text_of reads))
unfolding text_of
tail_main-last_lines_example =
    tail_main-last_lines 2 (7 ∷ 7 ∷ []) reads rounds (omega arith) refl (tt, (tt, tt)) (omega arith)
      (omega arith) (omega arith)

-- The last line.
prints : tail_main 1 (7 ∷ []) reads rounds ≡ some (100 ∷ 10 ∷ [])
unfolding tail_main output_loop tail_seek seek_from read_all start parse_newline parse_loop
    parse_byte text_of
prints = refl

-- A write that takes one byte of two.
cut : tail_main 1 (7 ∷ []) reads (copies 1 0 ∷ []) ≡ some (100 ∷ [])
unfolding tail_main output_loop tail_seek seek_from read_all start parse_newline parse_loop
    parse_byte text_of
cut = refl

minus_three : List ℕ → ℤ
minus_three text = negsuc 2

abbrev arguments : List (List ℕ)
arguments = (116 ∷ []) ∷ dash_n ∷ (45 ∷ 51 ∷ []) ∷ (102 ∷ []) ∷ []

ten_lines : get_lines_fn minus_three arguments ≡ some (10, 102 ∷ [])
unfolding get_lines_fn same_text at_least_one minus_three
ten_lines = refl
