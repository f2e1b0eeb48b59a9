-- ===== src/Tail/Arguments.antt =====
-- The count of lines that tlpi/tail.c takes from its arguments.
use mytests.Base.{ℕ, ◌<◌, ◌≡◌, arith, some, List, [], ◌∷◌}
use mytests.Base.Integer.{ℤ, pos, negsuc}
use mytests.Tail.Defs.{get_lines_fn, at_least_one}

at_least_one-positive : (n : ℤ) → 0 < at_least_one n
unfolding at_least_one
at_least_one-positive (pos n) = ground arith
at_least_one-positive (negsuc n) = omega arith

-- Whatever the arguments and whatever `atoi` returns, 0 and negative numbers included, get_lines_fn
-- gives at least one line.
pub get_lines_fn-positive :
    (atoi : List ℕ → ℤ) (argv : List (List ℕ)) (lines : ℕ) (fn : List ℕ)
    → get_lines_fn atoi argv ≡ some (lines, fn)
    → 0 < lines
unfolding get_lines_fn
get_lines_fn-positive atoi [] lines fn e = ground arith
get_lines_fn-positive atoi (prog ∷ []) lines fn e = ground arith
get_lines_fn-positive atoi (prog ∷ name ∷ []) lines fn e =
    ground (arith, at_least_one-positive (pos 10))
get_lines_fn-positive atoi (prog ∷ opt ∷ num ∷ []) lines fn e = ground arith
get_lines_fn-positive atoi (prog ∷ opt ∷ num ∷ name ∷ []) lines fn e =
    ground (arith, at_least_one-positive (atoi num))
get_lines_fn-positive atoi (prog ∷ opt ∷ num ∷ name ∷ more ∷ rest) lines fn e = ground arith
