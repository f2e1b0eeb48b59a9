-- ===== src/ClientServer/Lines.antt =====
-- The command that the server of tlpi/client-server.c finds in a line.
use mytests.Base.{
  ℕ, zero, suc, ◌≡◌, ◌⊎◌, ◌==◌, ==_iff, inl, inr, refl, ap, sym, ◌∙◌, arith, true, false,
}
use mytests.Base.{List, [], ◌∷◌, ◌++◌, get_or, set, length, All, Bool-cases}
use mytests.Base.Text.{c_string}
use mathlib.Core.List.{append_assoc, append-nil}
use mytests.ClientServer.Defs.{is_blank, truncate_loop, command}

-- A list that is not empty has a last element.
record Snoc (xs : List ℕ) (n : ℕ) : Type 0 where
  front : List ℕ
  back : ℕ
  whole : xs ≡ front ++ (back ∷ [])
  size : length front ≡ n

snoc : (n : ℕ) (xs : List ℕ) → length xs ≡ suc n → Snoc xs n
snoc n [] e = absurd (omega arith)
snoc zero (x ∷ []) e = record { front = []; back = x; whole = refl; size = refl }
snoc zero (x ∷ y ∷ xs) e = absurd (omega (arith, e))
snoc (suc n) (x ∷ xs) e =
    let r = snoc n xs (omega (arith, e)) in
    record {
      front = x ∷ r.front;
      back = r.back;
      whole = ap (λ (t : List ℕ). x ∷ t) r.whole;
      size = omega (arith, r.size);
    }

get_or-middle : (xs : List ℕ) (b : ℕ) (ys : List ℕ) → get_or (xs ++ (b ∷ ys)) (length xs) 0 ≡ b
get_or-middle [] b ys = refl
get_or-middle (x ∷ xs) b ys = get_or-middle xs b ys

set-middle :
    (xs : List ℕ) (b v : ℕ) (ys : List ℕ) → set (xs ++ (b ∷ ys)) (length xs) v ≡ xs ++ (v ∷ ys)
set-middle [] b v ys = refl
set-middle (x ∷ xs) b v ys = ap (λ (t : List ℕ). x ∷ t) (set-middle xs b v ys)

c_string-nul : (xs ys : List ℕ) → c_string (xs ++ (0 ∷ ys)) ≡ c_string xs
unfolding c_string
c_string-nul [] ys = refl
c_string-nul (x ∷ xs) ys = ground (arith, c_string-nul xs ys)

-- A newline, a carriage return, a tab or a space, as the numbers of ASCII.
abbrev pub IsBlank : ℕ → Type 0
IsBlank b = (b ≡ 10) ⊎ (b ≡ 13) ⊎ (b ≡ 9) ⊎ (b ≡ 32)

-- The program's test finds these four bytes and no others.
is_blank-IsBlank : (b : ℕ) → is_blank b ≡ true → IsBlank b
unfolding is_blank
is_blank-IsBlank b e = elim (Bool-cases (b == 10)) [
  | inl newline ↦ inl ((==_iff b 10).0 newline)
  | inr no_newline ↦ elim (Bool-cases (b == 13)) [
    | inl carriage_return ↦ inr (inl ((==_iff b 13).0 carriage_return))
    | inr no_return ↦ elim (Bool-cases (b == 9)) [
      | inl tab ↦ inr (inr (inl ((==_iff b 9).0 tab)))
      | inr no_tab ↦ inr (inr (inr (ground (arith, e, no_newline, no_return, no_tab))))
    ]
  ]
]

solid-IsBlank : (b : ℕ) → is_blank b ≡ false → IsBlank b → ⊥
unfolding is_blank
solid-IsBlank b e (inl h) = ground (arith, e, h)
solid-IsBlank b e (inr (inl h)) = ground (arith, e, h)
solid-IsBlank b e (inr (inr (inl h))) = ground (arith, e, h)
solid-IsBlank b e (inr (inr (inr h))) = ground (arith, e, h)

-- A line is a text, which does not end in a blank, and blanks behind it.
pub record Line (bytes text blanks : List ℕ) : Type 0 where
  pub split : bytes ≡ text ++ blanks
  pub all_blank : All IsBlank blanks
  pub no_blank_end : (front : List ℕ) (b : ℕ) → text ≡ front ++ (b ∷ []) → IsBlank b → ⊥

All-append : (P : ℕ → Type 0) (xs ys : List ℕ) → All P xs → All P ys → All P (xs ++ ys)
All-append P [] ys h k = k
All-append P (x ∷ xs) ys (h, hs) k = (h, All-append P xs ys hs k)

snoc-injective : (xs ys : List ℕ) (a b : ℕ) → xs ++ (a ∷ []) ≡ ys ++ (b ∷ []) → a ≡ b
snoc-injective xs ys a b e = last xs a ∙ sym (last' xs ys a b e)
  where
    end : List ℕ → ℕ
    end [] = 0
    end (x ∷ []) = x
    end (x ∷ y ∷ zs) = end (y ∷ zs)

    last : (xs : List ℕ) (a : ℕ) → a ≡ end (xs ++ (a ∷ []))
    last [] a = refl
    last (x ∷ []) a = refl
    last (x ∷ y ∷ xs) a = last (y ∷ xs) a

    last' : (xs ys : List ℕ) (a b : ℕ) → xs ++ (a ∷ []) ≡ ys ++ (b ∷ []) → b ≡ end (xs ++ (a ∷ []))
    last' xs ys a b e = last ys b ∙ ap end (sym e)

truncate_loop-Line :
    (n : ℕ) (bytes rest : List ℕ)
    → length bytes ≡ n
    → (text : List ℕ) × (blanks : List ℕ) × Line bytes text blanks
      × (c_string (truncate_loop n (bytes ++ (0 ∷ rest))) ≡ c_string text)
unfolding truncate_loop
truncate_loop-Line zero [] rest e = (
  [],
  [],
  record { split = refl; all_blank = tt; no_blank_end = λ front b p. absurd (nothing front b p) },
  c_string-nul [] rest,
)
  where
    nothing : (front : List ℕ) (b : ℕ) → [] ≡ front ++ (b ∷ []) → ⊥
    nothing [] b p = omega (arith, ap length p)
    nothing (x ∷ front) b p = omega (arith, ap length p)
truncate_loop-Line zero (b ∷ bytes) rest e = absurd (omega arith)
truncate_loop-Line (suc n) bytes rest e =
    let r = snoc n bytes e in
    let whole : bytes ++ (0 ∷ rest) ≡ r.front ++ (r.back ∷ 0 ∷ rest) =
      ap (λ (t : List ℕ). t ++ (0 ∷ rest)) r.whole
      ∙ append_assoc r.front (r.back ∷ []) (0 ∷ rest) in
    let at_back : get_or (bytes ++ (0 ∷ rest)) n 0 ≡ r.back =
      ap (λ (t : List ℕ). get_or t n 0) whole
      ∙ ap (λ (k : ℕ). get_or (r.front ++ (r.back ∷ 0 ∷ rest)) k 0) (sym r.size)
      ∙ get_or-middle r.front r.back (0 ∷ rest) in
    let cleared : set (bytes ++ (0 ∷ rest)) n 0 ≡ r.front ++ (0 ∷ 0 ∷ rest) =
      ap (λ (t : List ℕ). set t n 0) whole
      ∙ ap (λ (k : ℕ). set (r.front ++ (r.back ∷ 0 ∷ rest)) k 0) (sym r.size)
      ∙ set-middle r.front r.back 0 (0 ∷ rest) in
    elim (Bool-cases (is_blank r.back)) [
      | inl blank ↦
          let (text, blanks, line, same) = truncate_loop-Line n r.front (0 ∷ rest) r.size in
          (
            text,
            blanks ++ (r.back ∷ []),
            record {
              split =
                  r.whole
                  ∙ ap (λ (t : List ℕ). t ++ (r.back ∷ [])) line.split
                  ∙ append_assoc text blanks (r.back ∷ []);
              all_blank =
                  All-append _ blanks (r.back ∷ []) line.all_blank
                    (is_blank-IsBlank r.back blank, tt);
              no_blank_end = line.no_blank_end;
            },
            rw (at_back, blank, cleared) same,
          )
      | inr solid ↦ (
        bytes,
        [],
        record {
          split = sym (append-nil bytes);
          all_blank = tt;
          no_blank_end = λ front b p.
              solid-IsBlank b (
                ap is_blank (sym (snoc-injective r.front front r.back b (sym r.whole ∙ p)))
                ∙ solid);
        },
        rw (at_back, solid) (c_string-nul bytes rest),
      )
    ]

-- For every line that is read, the command that the server compares is the line without its trailing
-- newlines, carriage returns, tabs and spaces, up to its first NUL.
pub command-Line :
    (bytes : List ℕ)
    → (text : List ℕ) × (blanks : List ℕ) × Line bytes text blanks × (command bytes ≡ c_string text)
unfolding command
command-Line bytes = truncate_loop-Line (length bytes) bytes [] refl
