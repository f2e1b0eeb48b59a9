-- ===== src/Tail/Defs.antt =====
-- The functions of tlpi/tail.c up to the seek. An `int` that counts bytes is kept modulo 2 ^ 32.
use mytests.Base.{ℕ, ◌+◌, ◌-◌, ◌%◌, ◌^◌, Option, none, some}
use mytests.Base.{List, [], ◌∷◌, ◌==◌, if◌then◌else◌, get_or, set, length}
use mytests.Base.Text.{same_text}
use mytests.Base.Integer.{ℤ, pos, negsuc}
use mytests.Base.Word.{u32}

abbrev pub dash_n : List ℕ
dash_n = b'-' ∷ b'n' ∷ []

-- `if (lines < 1) lines = 10;`
unfoldable pub at_least_one : ℤ → ℕ
at_least_one (pos n) = if n == 0 then 10 else n
at_least_one (negsuc n) = 10

-- The arguments `argv`; the count of lines and the file's name, or `none` for the exit.
unfoldable pub get_lines_fn : (List ℕ → ℤ) → List (List ℕ) → Option (ℕ × List ℕ)
get_lines_fn atoi (prog ∷ fn ∷ []) = some (at_least_one (pos 10), fn)
get_lines_fn atoi (prog ∷ opt ∷ num ∷ fn ∷ []) =
    if same_text opt dash_n then some (at_least_one (atoi num), fn) else none
get_lines_fn atoi _ = none

-- The variables that parse_newline works on.
pub record Ring : Type 0 where
  pub last_char : ℕ
  pub newline_seeks : List ℕ
  pub newline_first : ℕ
  pub newline_last : ℕ

-- One round of the loop of parse_newline, at the offset of the byte in the file.
unfoldable pub parse_byte : ℕ → ℕ → Ring → ℕ → Ring
parse_byte lines offset r b =
    let newline_last = (r.newline_last + 1) % lines in
    let newline_first =
      if newline_last == r.newline_first then (r.newline_first + 1) % lines else r.newline_first in
    if r.last_char == b'\n'
    then record {
      last_char = b;
      newline_seeks = set r.newline_seeks newline_last offset;
      newline_first = newline_first;
      newline_last = newline_last;
    }
    else record r { last_char = b }

-- The loop from index `i` on.
unfoldable pub parse_loop : ℕ → ℕ → ℕ → List ℕ → Ring → Ring
parse_loop lines offset i [] r = r
parse_loop lines offset i (b ∷ buf) r =
    parse_loop lines offset (i + 1) buf (parse_byte lines (u32 (offset + i)) r b)

unfoldable pub parse_newline : ℕ → ℕ → List ℕ → Ring → Ring
parse_newline lines offset buf r = parse_loop lines offset 0 buf r

-- What a `read` does: bytes, none of them at the end of the file, -1 with EINTR, or -1 with another
-- error.
pub data Read : Type 0 where
  got : List ℕ → Read
  interrupted failed : Read

-- The first loop of `main`, over what its reads do; behind them is the end of the file. `none` is the
-- return after a failed read. After an interrupted one parse_newline has `len == -1`, so it does
-- nothing, and the -1 is added to the offset.
unfoldable pub read_all : ℕ → ℕ → List Read → Ring → Option Ring
read_all lines offset [] r = some r
read_all lines offset (got [] ∷ reads) r = some r
read_all lines offset (got (b ∷ buf) ∷ reads) r =
    read_all lines (u32 (offset + length (b ∷ buf))) reads (parse_newline lines offset (b ∷ buf) r)
read_all lines offset (interrupted ∷ reads) r = read_all lines (u32 (offset + (2 ^ 32 - 1))) reads r
read_all lines offset (failed ∷ reads) r = none

-- The variables before the loop; `malloc` returns memory with any content.
unfoldable pub start : List ℕ → Ring
start memory = record {
  last_char = 0;
  newline_seeks = set memory 0 0;
  newline_first = 0;
  newline_last = 0;
}

-- Where `main` seeks to.
unfoldable pub seek_from : ℕ → ℕ → List ℕ → List Read → Option ℕ
seek_from lines offset memory reads = elim (read_all lines offset reads (start memory)) [
  | none ↦ none
  | some r ↦ some (get_or r.newline_seeks r.newline_first 0)
]

unfoldable pub tail_seek : ℕ → List ℕ → List Read → Option ℕ
tail_seek lines memory reads = seek_from lines 0 memory reads
