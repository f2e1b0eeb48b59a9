-- ===== src/Tail/Output.antt =====
-- The rest of main of tlpi/tail.c: from the seek on, it copies the file to the output.
use mytests.Base.{
  length-take, ◌^◌, ℕ, zero, suc, ◌≤◌, ◌<◌, ◌≡◌, refl, ap, ◌∙◌, arith, Option, none, some, List, [],
  ◌∷◌, ◌++◌, take, drop, length, All, take-append-drop, length-drop,
}
use Prim.Native.Nat.{min}
use mytests.Tail.Defs.{Read, tail_seek}
use mytests.Tail.Seek.{IsData, text_of, last_lines, tail_seek-last_lines}

-- A round of the second loop: the `read` gives `n + 1` bytes, or what is left, and the `write`, whose result
-- is not looked at, takes `w + 1` of them or all; or the `read` returns -1.
pub data Copy : Type 0 where
  copies : (n w : ℕ) → Copy
  read_fails : Copy

-- What is written of the rest of the file. Nothing is known of rounds that are not listed.
unfoldable pub output_loop : List Copy → List ℕ → List ℕ
output_loop rounds [] = []
output_loop [] (b ∷ rest) = []
output_loop (read_fails ∷ rounds) (b ∷ rest) = []
output_loop (copies n w ∷ rounds) (b ∷ rest) =
    let len = min (suc n) (length (b ∷ rest)) in
    let buf = take len (b ∷ rest) in take (suc w) buf ++ output_loop rounds (drop len (b ∷ rest))

-- `main` from the first loop on, with the file as its reads give it: what it prints, or `none` after a failed
-- read of the first loop. The file does not change.
unfoldable pub tail_main : ℕ → List ℕ → List Read → List Copy → Option (List ℕ)
unfolding output_loop
tail_main lines memory reads rounds = elim (tail_seek lines memory reads) [
  | none ↦ none
  | some seek ↦ some (output_loop rounds (drop seek (text_of reads)))
]

-- A round that writes all that it reads.
abbrev pub IsWhole : Copy → Type 0
IsWhole (copies n w) = n ≤ w
IsWhole read_fails = ⊥

take_short : (k : ℕ) (xs : List ℕ) → length xs ≤ k → take k xs ≡ xs
take_short zero [] le = refl
take_short (suc k) [] le = refl
take_short zero (x ∷ xs) le = absurd (omega arith)
take_short (suc k) (x ∷ xs) le = ap (λ (t : List ℕ). x ∷ t) (take_short k xs (omega arith))

output_loop_lem :
    (rounds : List Copy) (rest : List ℕ)
    → All IsWhole rounds
    → length rest ≤ length rounds
    → output_loop rounds rest ≡ rest
unfolding output_loop
output_loop_lem rounds [] whole le = refl
output_loop_lem [] (b ∷ rest) whole le = absurd (omega arith)
output_loop_lem (read_fails ∷ rounds) (b ∷ rest) whole le = absurd whole.0
output_loop_lem (copies n w ∷ rounds) (b ∷ rest) (nw, whole) le =
    let len = min (suc n) (length (b ∷ rest)) in
    let buf = take len (b ∷ rest) in
    let all_written : take (suc w) buf ≡ buf =
      take_short (suc w) buf (omega (arith, nw, length-take len (b ∷ rest))) in
    let later =
      output_loop_lem rounds (drop len (b ∷ rest)) whole
        (omega (arith, le, length-drop len (b ∷ rest))) in
    ap (λ (t : List ℕ). t ++ output_loop rounds (drop len (b ∷ rest))) all_written
    ∙ ap (λ (t : List ℕ). buf ++ t) later
    ∙ take-append-drop len (b ∷ rest)

-- For a number of lines above 0, a file below 2 GB, reads that are not interrupted and writes that are not
-- cut short, and rounds enough, main prints the file from the start of its last lines on.
pub tail_main-last_lines :
    (lines : ℕ) (memory : List ℕ) (reads : List Read) (rounds : List Copy)
    → 0 < lines
    → length memory ≡ lines
    → All IsData reads
    → length (text_of reads) < 2 ^ 31
    → All IsWhole rounds
    → length (text_of reads) ≤ length rounds
    → tail_main lines memory reads rounds
      ≡ some (drop (last_lines lines (text_of reads)) (text_of reads))
unfolding tail_main
tail_main-last_lines lines memory reads rounds pos size ok small whole enough =
    rw (tail_main, tail_seek-last_lines lines memory reads pos size ok small)
      (ap some (
        output_loop_lem rounds (drop (last_lines lines (text_of reads)) (text_of reads)) whole
          (omega (arith, enough, length-drop (last_lines lines (text_of reads)) (text_of reads)))))
