-- ===== src/Utf8Len/Chars.antt =====
-- What utf8-len.c counts: characters of one lead byte and its continuation bytes.
use mytests.Base.{
  ℕ, zero, suc, ◌+◌, ◌-◌, ◌≤◌, ◌<◌, ◌≡◌, ◌≢◌, ◌↔◌, refl, ap, ◌∙◌, sym, arith, Bool, true, false,
  not, ◌||◌, ◌⊎◌,
}
use mytests.Base.{List, [], ◌∷◌, ◌++◌, bit_and, ltb, ◌==◌, if◌then◌else◌, take, drop, length, All}
use mytests.Base.{length-append, length-take, length-drop, take-append-drop}
use mytests.Base.{All-drop}
use mytests.Base.Word.{IsByte}
use mytests.Base.{◌/◌}
use mytests.Base.Digits.{bit_and_high, bit_and_low}
use mytests.Base.Table.{passes, agree_below}
use mytests.Utf8Len.Defs.{
  utf8_char_length, utf8_char_length_tbl, Counted, counted, error, stuck, check_conts, length_loop,
  utf8_length, utf8_length_tbl,
}

-- A continuation byte, and a lead byte of `k` continuation bytes.
abbrev pub IsCont : ℕ → Type 0
IsCont b = (0x80 ≤ b) × (b < 0xc0)

abbrev pub IsLead : ℕ → ℕ → Type 0
IsLead b k =
    ((k ≡ 0) × (b < 0x80))
    ⊎ (((k ≡ 1) × (0xc0 ≤ b) × (b < 0xe0))
        ⊎ (((k ≡ 2) × (0xe0 ≤ b) × (b < 0xf0)) ⊎ ((k ≡ 3) × (0xf0 ≤ b) × (b < 0xf8))))

-- `Chars n bytes`: the bytes are `n` characters, one behind the other.
pub data Chars : ℕ → List ℕ → Type 0 where
  end_of_text : Chars 0 []
  char :
      {n : ℕ} {bytes : List ℕ} (lead : ℕ) (conts rest : List ℕ)
      → IsLead lead (length conts)
      → All IsCont conts
      → bytes ≡ lead ∷ (conts ++ rest)
      → Chars n rest
      → Chars (suc n) bytes

-- The tests on a byte as intervals, by a table of all bytes.
width : ℕ → ℕ
width b =
    if ltb b 0x80
    then 1
    else if ltb b 0xc0
    then 0
    else if ltb b 0xe0
    then 2
    else if ltb b 0xf0
    then 3
    else if ltb b 0xf8
    then 4
    else 0

utf8_char_length-width : (b : ℕ) → IsByte b → utf8_char_length b ≡ width b
unfolding utf8_char_length width passes
utf8_char_length-width = agree_below utf8_char_length width 256 refl

-- The table and the tests agree on every byte: the check at the start of `main` passes.
pub utf8_char_length_tbl-utf8_char_length :
    (c : ℕ) → IsByte c → utf8_char_length_tbl c ≡ utf8_char_length c
unfolding utf8_char_length_tbl utf8_char_length passes
utf8_char_length_tbl-utf8_char_length = agree_below utf8_char_length_tbl utf8_char_length 256 refl

IsCont-byte : (b : ℕ) → IsByte b → ((bit_and b 0xc0 == 0x80) ≡ true) ↔ IsCont b
IsCont-byte b h = ground (arith, bit_and_high 6 b 3, bit_and_low 2 (b / 64))

check_conts-append :
    (conts rest : List ℕ) → All IsCont conts → check_conts (length conts) (conts ++ rest) ≡ true
unfolding check_conts
check_conts-append [] rest h = refl
check_conts-append (c ∷ cs) rest (h, hs) =
    ground (arith, IsCont-byte c (omega arith), check_conts-append cs rest hs)

check_conts-take :
    (k : ℕ) (bs : List ℕ)
    → All IsByte bs
    → k ≤ length bs
    → check_conts k bs ≡ true
    → All IsCont (take k bs)
unfolding check_conts
check_conts-take zero bs h fits ok = tt
check_conts-take (suc k) [] h fits ok = absurd (omega arith)
check_conts-take (suc k) (b ∷ bs) (h, hs) fits ok =
    (ground (arith, IsCont-byte b h), check_conts-take k bs hs (omega arith) (ground arith))

drop-append : (conts rest : List ℕ) → drop (length conts) (conts ++ rest) ≡ rest
drop-append [] rest = refl
drop-append (c ∷ cs) rest = drop-append cs rest

IsLead-width : (b k : ℕ) → IsLead b k → utf8_char_length b ≡ suc k
unfolding width
IsLead-width b k h = ground (arith, utf8_char_length-width b)

width-IsLead : (b k : ℕ) → IsByte b → utf8_char_length b ≡ suc k → IsLead b k
unfolding width
width-IsLead b k h e = ground (arith, utf8_char_length-width b h)

-- The loop counts the characters that are there.
length_loop_complete :
    (fuel n : ℕ) (bytes : List ℕ) (count : ℕ)
    → length bytes ≤ fuel
    → Chars n bytes
    → length_loop utf8_char_length fuel bytes count ≡ counted (count + n)
unfolding length_loop
length_loop_complete fuel n bytes count enough end_of_text = ground arith
length_loop_complete zero n bytes count enough (char lead conts rest l cs e next) =
    absurd (omega (arith, ap length e))
length_loop_complete (suc fuel) (suc n) bytes count enough (char lead conts rest l cs e next) =
    rw e (
      ground (
        arith,
        IsLead-width lead (length conts) l,
        check_conts-append conts rest cs,
        drop-append conts rest,
        length-append conts rest,
        ap length e,
        length_loop_complete fuel n rest (count + 1),
      ))

drop-positive : (w b : ℕ) (bs : List ℕ) → w ≢ 0 → drop w (b ∷ bs) ≡ drop (w - 1) bs
drop-positive zero b bs h = absurd (h refl)
drop-positive (suc w) b bs h = ground arith

-- What a round that does not fail has seen.
record Round (fuel b : ℕ) (bs : List ℕ) (count : ℕ) (r : Counted) : Type 0 where
  conts : ℕ
  lead : utf8_char_length b ≡ suc conts
  fits : conts ≤ length bs
  checked : check_conts conts bs ≡ true
  next : length_loop utf8_char_length fuel (drop conts bs) (count + 1) ≡ r

no_error :
    (a b : Bool) (y r : Counted)
    → (if a then error else if not b then error else y) ≡ r
    → r ≢ error
    → (a ≡ false) × (b ≡ true) × (y ≡ r)
no_error true b y r e h = absurd (h (sym e))
no_error false true y r e h = (refl, refl, e)
no_error false false y r e h = absurd (h (sym e))

fits_in : (w n : ℕ) → ((w == 0) || ltb (suc n) w) ≡ false → (w ≡ suc (w - 1)) × (w - 1 ≤ n)
fits_in w n e = ground arith

round :
    (fuel b : ℕ) (bs : List ℕ) (count : ℕ) (r : Counted)
    → length_loop utf8_char_length (suc fuel) (b ∷ bs) count ≡ r
    → r ≢ error
    → Round fuel b bs count r
unfolding length_loop
round fuel b bs count r e h =
    let (fit, ok, next) = no_error _ _ _ r e h in
    let (positive, fits) = fits_in (utf8_char_length b) (length bs) fit in
    record {
      conts = utf8_char_length b - 1;
      lead = positive;
      fits = fits;
      checked = ok;
      next =
          ap (λ (t : List ℕ). length_loop utf8_char_length fuel t (count + 1))
            (sym (drop-positive (utf8_char_length b) b bs (omega (arith, positive))))
          ∙ next;
    }

length_loop_sound :
    (fuel : ℕ) (bytes : List ℕ) (count m : ℕ)
    → All IsByte bytes
    → length_loop utf8_char_length fuel bytes count ≡ counted m
    → (n : ℕ) × (m ≡ count + n) × Chars n bytes
unfolding length_loop
length_loop_sound fuel [] count m h e = (0, ground arith, end_of_text)
length_loop_sound zero (b ∷ bs) count m h e = absurd (ground arith)
length_loop_sound (suc fuel) (b ∷ bs) count m (h, hs) e =
    let r = round fuel b bs count (counted m) e (ground arith) in
    let (n, total, rest) =
      length_loop_sound fuel (drop r.conts bs) (count + 1) m (All-drop IsByte r.conts bs hs)
        r.next in
    (
      suc n,
      omega (arith, total),
      char b (take r.conts bs) (drop r.conts bs)
          (width-IsLead b _ h (ground (arith, r.lead, r.fits, length-take r.conts bs)))
          (check_conts-take r.conts bs hs r.fits r.checked)
          (ap (λ (t : List ℕ). b ∷ t) (sym (take-append-drop r.conts bs))) rest,
    )

length_loop-fuel :
    (fuel : ℕ) (bytes : List ℕ) (count : ℕ)
    → length bytes ≤ fuel
    → length_loop utf8_char_length fuel bytes count ≢ stuck
unfolding length_loop
length_loop-fuel fuel [] count enough e = ground arith
length_loop-fuel zero (b ∷ bs) count enough e = absurd (omega arith)
length_loop-fuel (suc fuel) (b ∷ bs) count enough e =
    let r = round fuel b bs count stuck e (ground arith) in
    length_loop-fuel fuel (drop r.conts bs) (count + 1) (omega (arith, length-drop r.conts bs))
      r.next

-- The table and the tests give the same loop.
length_loop-same :
    (fuel : ℕ) (bytes : List ℕ) (count : ℕ)
    → All IsByte bytes
    → length_loop utf8_char_length_tbl fuel bytes count
      ≡ length_loop utf8_char_length fuel bytes count
unfolding length_loop
length_loop-same fuel [] count h = refl
length_loop-same zero (b ∷ bs) count h = refl
length_loop-same (suc fuel) (b ∷ bs) count (h, hs) = ground (
  arith,
  utf8_char_length_tbl-utf8_char_length b h,
  length_loop-same fuel (drop (utf8_char_length b) (b ∷ bs)) (count + 1)
      (All-drop IsByte (utf8_char_length b) (b ∷ bs) (h, hs)),
)

-- On a buffer of bytes utf8_length returns a count exactly when the text is that many characters,
-- each a lead byte and the continuation bytes that it asks for; otherwise it reports an error, and
-- its loop ends.
pub utf8_length-Chars :
    (dat : List ℕ)
    → All IsByte dat
    → ((n : ℕ) → (utf8_length dat ≡ counted n) ↔ Chars n dat) × (utf8_length dat ≢ stuck)
unfolding utf8_length
utf8_length-Chars dat h = (
  λ n. (
    λ e.
        let (k, total, chars) = length_loop_sound (length dat) dat 0 n h e in
        rw (the_same n k total) chars,
    λ chars. ground (arith, length_loop_complete (length dat) n dat 0 (omega arith) chars),
  ),
  length_loop-fuel (length dat) dat 0 (omega arith),
)
  where
    the_same : (n k : ℕ) → n ≡ 0 + k → n ≡ k
    the_same n k e = omega arith

-- On a buffer of bytes the version with the table returns what the version with the tests does, the
-- error included.
pub utf8_length_tbl-utf8_length :
    (dat : List ℕ) → All IsByte dat → utf8_length_tbl dat ≡ utf8_length dat
unfolding utf8_length_tbl utf8_length
utf8_length_tbl-utf8_length dat h = length_loop-same (length dat) dat 0 h
