-- ===== src/Tail/Seek.antt =====
-- Where tlpi/tail.c starts to print.
use mytests.Base.{
  ℕ, zero, suc, ◌+◌, ◌-◌, ◌^◌, ◌≤◌, ◌<◌, ◌≡◌, refl, ap, sym, ◌∙◌, arith, true, false,
}
use mytests.Base.{◌⊎◌, inl, inr}
use mytests.Base.{
  some, List, [], ◌∷◌, ◌++◌, map, ◌==◌, if◌then◌else◌, get_or, length, All, Bool-cases,
}
use mytests.Base.{length-set}
use mytests.Base.Word.{u32}
use mathlib.Core.List.{append_assoc, append-nil}
use mathlib.Core.Path.{subst}
use mytests.Tail.Defs.{
  Ring, Read, got, interrupted, failed, parse_byte, parse_loop, parse_newline, read_all, start,
  seek_from, tail_seek,
}
use mytests.Base.{get_or-set}
use mytests.Tail.Ring.{Holds, back, push-Holds, skip-Holds}

-- The offsets of the bytes behind a newline, for a text at the offset `at` behind the byte `c`.
unfoldable pub line_starts : ℕ → ℕ → List ℕ → List ℕ
line_starts c at [] = []
line_starts c at (b ∷ bs) =
    let rest = line_starts b (at + 1) bs in if c == b'\n' then at ∷ rest else rest

-- The start of the last `lines` lines of a text, or its start if it has fewer.
unfoldable pub last_lines : ℕ → List ℕ → ℕ
last_lines lines text =
    let starts = 0 ∷ line_starts 0 0 text in get_or starts (length starts - lines) 0

-- A read that returns bytes.
abbrev pub IsData : Read → Type 0
IsData (got []) = ⊥
IsData (got (b ∷ bs)) = Unit
IsData interrupted = ⊥
IsData failed = ⊥

unfoldable pub text_of : List Read → List ℕ
text_of [] = []
text_of (got bs ∷ reads) = bs ++ text_of reads
text_of (_ ∷ reads) = text_of reads

-- The line starts as the ring has them, with offsets modulo 2 ^ 32.
stored : ℕ → ℕ → List ℕ → List ℕ
stored c at [] = []
stored c at (b ∷ bs) =
    let rest = stored b (u32 (at + 1)) bs in if c == b'\n' then at ∷ rest else rest

last_byte : ℕ → List ℕ → ℕ
last_byte c [] = c
last_byte c (b ∷ bs) = last_byte b bs

stored-append :
    (c at : ℕ) (xs ys : List ℕ)
    → at < 2 ^ 32
    → stored c at (xs ++ ys) ≡ stored c at xs ++ stored (last_byte c xs) (u32 (at + length xs)) ys
unfolding stored last_byte
stored-append c at [] ys h = ap (λ (t : ℕ). stored c t ys) (omega arith)
stored-append c at (x ∷ xs) ys h = elim (Bool-cases (c == b'\n')) [
  | inl e ↦ rw e (ground (arith, stored-append x (u32 (at + 1)) xs ys))
  | inr e ↦ rw e (ground (arith, stored-append x (u32 (at + 1)) xs ys))
]

-- A round of the loop keeps the ring.
record Parsed (lines : ℕ) (ss : List ℕ) (c : ℕ) (r : Ring) : Type 0 where
  ring : Holds lines ss r
  behind : r.last_char ≡ c

parse_byte-Parsed :
    (lines at c b : ℕ) (ss : List ℕ) (r : Ring)
    → Parsed lines ss c r
    → Parsed lines (ss ++ (if c == b'\n' then at ∷ [] else [])) b (parse_byte lines at r b)
parse_byte-Parsed lines at c b ss r p = record {
  ring = elim (Bool-cases (c == b'\n')) [
    | inl e ↦ rw e (push-Holds lines at b ss r p.ring (ground (arith, p.behind)))
    | inr e ↦ rw (e, append-nil ss) (skip-Holds lines at b ss r p.ring (ground (arith, p.behind)))
  ];
  behind = unfold parse_byte in ground arith;
}

parse_loop-Parsed :
    (lines offset i c : ℕ) (buf ss : List ℕ) (r : Ring)
    → Parsed lines ss c r
    → Parsed lines
        (ss ++ stored c (u32 (offset + i)) buf)
        (last_byte c buf)
        (parse_loop lines offset i buf r)
unfolding parse_loop stored last_byte
parse_loop-Parsed lines offset i c [] ss r p = rw (append-nil ss) p
parse_loop-Parsed lines offset i c (b ∷ buf) ss r p =
    subst (λ (t : List ℕ). Parsed lines t (last_byte b buf) (parse_loop lines offset i (b ∷ buf) r))
      (joined (Bool-cases (c == b'\n')))
      (parse_loop-Parsed lines offset (i + 1) b buf
        (ss ++ (if c == b'\n' then u32 (offset + i) ∷ [] else []))
        (parse_byte lines (u32 (offset + i)) r b)
        (parse_byte-Parsed lines (u32 (offset + i)) c b ss r p))
  where
    at_next : u32 (offset + (i + 1)) ≡ u32 (u32 (offset + i) + 1)
    at_next = omega arith

    joined :
        ((c == b'\n') ≡ true) ⊎ ((c == b'\n') ≡ false)
        → (ss ++ (if c == b'\n' then u32 (offset + i) ∷ [] else []))
            ++ stored b (u32 (offset + (i + 1))) buf
          ≡ ss ++ stored c (u32 (offset + i)) (b ∷ buf)
    joined (inl e) = rw (e, at_next) (append_assoc ss _ _)
    joined (inr e) = rw (e, at_next, append-nil ss) refl

read_all-Parsed :
    (lines offset c : ℕ) (reads : List Read) (ss : List ℕ) (r : Ring)
    → offset < 2 ^ 32
    → All IsData reads
    → Parsed lines ss c r
    → (r' : Ring) × (read_all lines offset reads r ≡ some r')
      × Holds lines (ss ++ stored c offset (text_of reads)) r'
unfolding read_all text_of stored parse_newline
read_all-Parsed lines offset c [] ss r lt h p = (r, refl, rw (append-nil ss) p.ring)
read_all-Parsed lines offset c (got [] ∷ reads) ss r lt h p = absurd h.0
read_all-Parsed lines offset c (interrupted ∷ reads) ss r lt h p = absurd h.0
read_all-Parsed lines offset c (failed ∷ reads) ss r lt h p = absurd h.0
read_all-Parsed lines offset c (got (b ∷ buf) ∷ reads) ss r lt (_, h) p =
    let at_start : u32 (offset + 0) ≡ offset = omega arith in
    let (r', e, ring) =
      read_all-Parsed lines (u32 (offset + length (b ∷ buf))) (last_byte c (b ∷ buf)) reads
        (ss ++ stored c offset (b ∷ buf)) (parse_loop lines offset 0 (b ∷ buf) r) (omega arith) h
        (subst
          (λ (t : ℕ).
            Parsed lines (ss ++ stored c t (b ∷ buf)) (last_byte c (b ∷ buf))
              (parse_loop lines offset 0 (b ∷ buf) r))
          at_start (parse_loop-Parsed lines offset 0 c (b ∷ buf) ss r p)) in
    (
      r',
      e,
      subst (λ (t : List ℕ). Holds lines t r')
          (append_assoc ss _ _
            ∙ ap (λ (t : List ℕ). ss ++ t)
                (sym (stored-append c offset (b ∷ buf) (text_of reads) lt)))
          ring,
    )

start-Parsed :
    (lines : ℕ) (memory : List ℕ)
    → 0 < lines
    → length memory ≡ lines
    → Parsed lines (0 ∷ []) 0 (start memory)
unfolding start back
start-Parsed lines memory pos e = record {
  ring = record {
    size = omega (arith, length-set memory 0 0, e);
    some_start = omega arith;
    last_fits = pos;
    first_fits = pos;
    filling = λ few. (refl, refl);
    full = λ many. ground arith;
    newest = λ d p q. ground (arith, get_or-set memory 0 0 0);
  };
  behind = refl;
}

-- The first of the slots in use is the start of the last `lines` lines.
Holds-first :
    (lines : ℕ) (ss : List ℕ) (r : Ring)
    → Holds lines ss r
    → get_or r.newline_seeks r.newline_first 0 ≡ get_or ss (length ss - lines) 0
unfolding back
Holds-first lines ss r h = ground (
  arith,
  h.some_start,
  h.last_fits,
  h.filling,
  h.full,
  h.newest (lines - 1),
  h.newest (length ss - 1),
)

module _ (lines : ℕ) (memory : List ℕ) (reads : List Read) (pos : 0 < lines)
    (size : length memory ≡ lines) (ok : All IsData reads) where
  seek_from-stored :
      (offset : ℕ)
      → offset < 2 ^ 32
      → seek_from lines offset memory reads
        ≡ some (
            get_or
              (0 ∷ stored 0 offset (text_of reads))
              (suc (length (stored 0 offset (text_of reads))) - lines)
              0)
  unfolding seek_from
  seek_from-stored offset lt =
      let (r, e, ring) =
        read_all-Parsed lines offset 0 reads (0 ∷ []) (start memory) lt ok
          (start-Parsed lines memory pos size) in
      rw (e, seek_from) (ap some (Holds-first lines _ r ring))

stored-line_starts :
    (c at : ℕ) (bs : List ℕ) → at + length bs < 2 ^ 32 → stored c at bs ≡ line_starts c at bs
unfolding stored line_starts
stored-line_starts c at [] h = refl
stored-line_starts c at (b ∷ bs) h =
    let small : u32 (at + 1) ≡ at + 1 = omega arith in
    rw (small, stored-line_starts b (at + 1) bs (omega arith)) refl

-- For a file of less than 2 ^ 31 bytes, which `int` offsets can count, whatever the sizes of the
-- reads and the content of the ring's memory, and with no read interrupted, `main` seeks to the start
-- of the last `lines` lines, or to the start of the file when it has fewer.
pub tail_seek-last_lines :
    (lines : ℕ) (memory : List ℕ) (reads : List Read)
    → 0 < lines
    → length memory ≡ lines
    → All IsData reads
    → length (text_of reads) < 2 ^ 31
    → tail_seek lines memory reads ≡ some (last_lines lines (text_of reads))
unfolding tail_seek last_lines
tail_seek-last_lines lines memory reads pos size ok small =
    rw (sym (stored-line_starts 0 0 (text_of reads) (omega arith)))
      (seek_from-stored lines memory reads pos size ok 0 (omega arith))

stored-lower :
    (c at : ℕ) (bs : List ℕ)
    → at < 2 ^ 32
    → stored c (u32 (at + (2 ^ 32 - 1))) bs ≡ map (λ s. u32 (s + (2 ^ 32 - 1))) (stored c at bs)
unfolding stored
stored-lower c at [] h = refl
stored-lower c at (b ∷ bs) h =
    let next : u32 (u32 (at + (2 ^ 32 - 1)) + 1) ≡ u32 (u32 (at + 1) + (2 ^ 32 - 1)) =
      omega arith in
    elim (Bool-cases (c == b'\n')) [
      | inl e ↦ rw (e, next, stored-lower b (u32 (at + 1)) bs (omega arith)) refl
      | inr e ↦ rw (e, next, stored-lower b (u32 (at + 1)) bs (omega arith)) refl
    ]

length-map : (f : ℕ → ℕ) (xs : List ℕ) → length (map f xs) ≡ length xs
length-map f [] = refl
length-map f (x ∷ xs) = ap suc (length-map f xs)

get_or-map :
    (f : ℕ → ℕ) (xs : List ℕ) (i : ℕ) → i < length xs → get_or (map f xs) i 0 ≡ f (get_or xs i 0)
get_or-map f [] i h = absurd (omega arith)
get_or-map f (x ∷ xs) zero h = refl
get_or-map f (x ∷ xs) (suc i) h = get_or-map f xs i (omega arith)

-- An interrupted read takes one from the offset.
interrupted_start :
    (lines : ℕ) (memory : List ℕ) (reads : List Read)
    → seek_from lines 0 memory (interrupted ∷ reads) ≡ seek_from lines (2 ^ 32 - 1) memory reads
unfolding seek_from read_all
interrupted_start lines memory reads = refl

-- A read that is interrupted by a signal loses a byte: when the first read is, and the reads behind
-- it bring a file of less than 2 ^ 31 bytes and at least `lines` line starts behind newlines, `main`
-- seeks to the offset one below the start of the last `lines` lines, modulo 2 ^ 32.
pub tail_seek-interrupted :
    (lines : ℕ) (memory : List ℕ) (reads : List Read)
    → 0 < lines
    → length memory ≡ lines
    → All IsData reads
    → length (text_of reads) < 2 ^ 31
    → lines ≤ length (line_starts 0 0 (text_of reads))
    → tail_seek lines memory (interrupted ∷ reads)
      ≡ some (u32 (last_lines lines (text_of reads) + (2 ^ 32 - 1)))
unfolding tail_seek last_lines
tail_seek-interrupted lines memory reads pos size ok small many =
    let text = text_of reads in
    let shift = λ (s : ℕ). u32 (s + (2 ^ 32 - 1)) in
    let same : stored 0 0 text ≡ line_starts 0 0 text = stored-line_starts 0 0 text (omega arith) in
    let lower : stored 0 (2 ^ 32 - 1) text ≡ map shift (line_starts 0 0 text) =
      rw (sym same) (stored-lower 0 0 text (omega arith)) in
    interrupted_start lines memory reads
    ∙ seek_from-stored lines memory reads pos size ok (2 ^ 32 - 1) (omega arith)
    ∙ ap some (rw lower (picked shift (line_starts 0 0 text) many))
  where
    picked :
        (f : ℕ → ℕ) (ss : List ℕ)
        → lines ≤ length ss
        → get_or (0 ∷ map f ss) (suc (length (map f ss)) - lines) 0
          ≡ f (get_or (0 ∷ ss) (suc (length ss) - lines) 0)
    picked f ss h =
        let e : suc (length ss) - lines ≡ suc (length ss - lines) = omega arith in
        rw (length-map f ss, e) (get_or-map f ss (length ss - lines) (omega arith))
