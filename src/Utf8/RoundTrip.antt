-- ===== src/Utf8/RoundTrip.antt =====
-- The decoder reads back what the encoders write.
use mytests.Base.{ℕ, suc, ◌+◌, ◌/◌, ◌%◌, ◌^◌, ◌<◌, ◌≤◌, ◌≡◌, ◌⊎◌, inl, inr, sym, refl, arith, false}
use mytests.Base.{some, List, [], ◌∷◌, ◌++◌, length, leb, ◌==◌, ◌&&◌, ==_iff, Bool-cases}
use mathlib.Core.Path.{subst}
use mytests.Utf8.Defs.{
  high_bits_set, code_width, encode_utf8_quick, check_code, decode_utf8, invalid_utf8_char,
}
use mytests.Utf8.Spec.{bytes2, bytes3, bytes4, bytes5, bytes6, utf8_bytes, leading_ones}
use mytests.Utf8.Sizes.{sized, size1, size2, size3, size4, size5, size6, too_big}
use mytests.Utf8.Encode.{Fits, encode_utf8_quick-written}
use mytests.Utf8.Decode.{
  high_bits_set-leading_ones, decode2, decode3, decode4, decode5, decode6, lead2_IsLead,
  lead3_IsLead, lead4_IsLead, lead5_IsLead, lead6_IsLead,
}

-- A surrogate, U+FFFE or U+FFFF.
abbrev pub IsNoCharacter : ℕ → Type 0
IsNoCharacter u = ((0xd800 ≤ u) × (u < 0xe000)) ⊎ (u ≡ 0xfffe) ⊎ (u ≡ 0xffff)

-- What the decoder is to return for the bytes of `u`.
abbrev pub Replaces : (u code : ℕ) → Type 0
Replaces u code =
    (IsNoCharacter u × (code ≡ invalid_utf8_char)) ⊎ ((IsNoCharacter u → ⊥) × (code ≡ u))

check_code-Replaces : (u : ℕ) → Replaces u (check_code (some u))
check_code-Replaces u = elim (Bool-cases (u == 0xfffe)) [
  | inl e ↦ let same = (==_iff u 0xfffe).0 e in inl (inr (inl same), ground (arith, same))
  | inr differs ↦ elim (Bool-cases (u == 0xffff)) [
    | inl e ↦ let same = (==_iff u 0xffff).0 e in inl (inr (inr same), ground (arith, same))
    | inr differs' ↦ elim (Bool-cases (leb 0xd800 u && leb u 0xdfff)) [
      | inl e ↦
          inl (inl (ground (arith, e), ground (arith, e)), ground (arith, e, differs, differs'))
      | inr e ↦
          inr (λ bad. is_character differs differs' e bad, ground (arith, e, differs, differs'))
    ]
  ]
]
  where
    is_character :
        {u : ℕ}
        → (u == 0xfffe) ≡ false
        → (u == 0xffff) ≡ false
        → (leb 0xd800 u && leb u 0xdfff) ≡ false
        → IsNoCharacter u
        → ⊥
    is_character a b c (inl (h, k)) = ground (arith, c, h, k)
    is_character a b c (inr (inl h)) = ground (arith, a, h)
    is_character a b c (inr (inr h)) = ground (arith, b, h)

-- The decoder on the bytes of `u` with `rest` behind them.
abbrev pub Reads : ℕ → List ℕ → List ℕ → Type 0
Reads u bs rest = decode_utf8 (bs ++ rest) (length bs) ≡ check_code (some u)

module _ (u : ℕ) (rest : List ℕ) where
  reads1 : u < 0x80 → Reads u (u ∷ []) rest
  unfolding decode_utf8
  reads1 h = ground arith

  reads2 : u < 0x800 → Reads u (bytes2 u) rest
  unfolding bytes2
  reads2 h =
      decode2 rest (192 + u / 64) (u / 64) (u % 64) u (lead2_IsLead _ (omega arith)) (omega arith)
        (omega arith) (omega arith)

  reads3 : u < 0x10000 → Reads u (bytes3 u) rest
  unfolding bytes3
  reads3 h =
      decode3 rest (224 + u / 4096) (u / 4096) (u / 64 % 64) (u % 64) u
        (lead3_IsLead _ (omega arith)) (omega arith) (omega arith) (omega arith) (omega arith)

  reads4 : u < 0x200000 → Reads u (bytes4 u) rest
  unfolding bytes4
  reads4 h =
      decode4 rest (240 + u / 262144) (u / 262144) (u / 4096 % 64) (u / 64 % 64) (u % 64) u
        (lead4_IsLead _ (omega arith)) (omega arith) (omega arith) (omega arith) (omega arith)
        (omega arith)

  reads5 : u < 0x4000000 → Reads u (bytes5 u) rest
  unfolding bytes5
  reads5 h =
      decode5 rest (248 + u / 16777216) (u / 16777216) (u / 262144 % 64) (u / 4096 % 64)
        (u / 64 % 64) (u % 64) u (lead5_IsLead _ (omega arith)) (omega arith) (omega arith)
        (omega arith) (omega arith) (omega arith) (omega arith)

  reads6 : u < 0x80000000 → Reads u (bytes6 u) rest
  unfolding bytes6
  reads6 h =
      decode6 rest (252 + u / 1073741824) (u / 1073741824) (u / 16777216 % 64) (u / 262144 % 64)
        (u / 4096 % 64) (u / 64 % 64) (u % 64) u (lead6_IsLead _ (omega arith)) (omega arith)
        (omega arith) (omega arith) (omega arith) (omega arith) (omega arith) (omega arith)

-- The bytes of every code point below 2 ^ 31, and how wide its first byte says that they are.
pub record Coded (u : ℕ) : Type 0 where
  pub lead : ℕ
  pub more : List ℕ
  pub bytes : utf8_bytes u ≡ some (lead ∷ more)
  pub width : code_width lead ≡ length (lead ∷ more)
  pub reads : (rest : List ℕ) → Reads u (lead ∷ more) rest

width_of_ones : (b k : ℕ) → high_bits_set b ≡ suc k → code_width b ≡ suc k
unfolding code_width
width_of_ones b k e = ground arith

width1 : (b : ℕ) → b < 0x80 → code_width b ≡ 1
unfolding code_width leading_ones
width1 b h = ground (arith, high_bits_set-leading_ones b)

pub code_bytes : (u : ℕ) → u < 2 ^ 31 → Coded u
unfolding bytes2 bytes3 bytes4 bytes5 bytes6
code_bytes u small = elim (sized u) [
  | size1 h e ↦ record {
    lead = _;
    more = _;
    bytes = e;
    width = width1 u h;
    reads = λ rest. reads1 u rest h;
  }
  | size2 g h e ↦ record {
    lead = _;
    more = _;
    bytes = e;
    width = width_of_ones _ 1 (lead2_IsLead (u / 64) (omega arith)).0;
    reads = λ rest. reads2 u rest h;
  }
  | size3 g h e ↦ record {
    lead = _;
    more = _;
    bytes = e;
    width = width_of_ones _ 2 (lead3_IsLead (u / 4096) (omega arith)).0;
    reads = λ rest. reads3 u rest h;
  }
  | size4 g h e ↦ record {
    lead = _;
    more = _;
    bytes = e;
    width = width_of_ones _ 3 (lead4_IsLead (u / 262144) (omega arith)).0;
    reads = λ rest. reads4 u rest h;
  }
  | size5 g h e ↦ record {
    lead = _;
    more = _;
    bytes = e;
    width = width_of_ones _ 4 (lead5_IsLead (u / 16777216) (omega arith)).0;
    reads = λ rest. reads5 u rest h;
  }
  | size6 g h e ↦ record {
    lead = _;
    more = _;
    bytes = e;
    width = width_of_ones _ 5 (lead6_IsLead (u / 1073741824) (omega arith)).0;
    reads = λ rest. reads6 u rest h;
  }
  | too_big h e ↦ absurd (omega arith)
]

-- For every code point below 2 ^ 31 and a buffer with room for it, the optimised encoder returns a
-- length, and decoding that many bytes of the buffer gives the code point back; a surrogate,
-- U+FFFE or U+FFFF, and no other, comes back as INVALID_UTF8_CHAR.
pub decode_utf8-encode_utf8_quick :
    (u : ℕ) (buf : List ℕ)
    → u < 2 ^ 31
    → Fits u buf
    → (n : ℕ) × ((encode_utf8_quick u buf).ret ≡ some n)
      × Replaces u (decode_utf8 (encode_utf8_quick u buf).buf n)
decode_utf8-encode_utf8_quick u buf small fits =
    let c = code_bytes u small in
    rw (encode_utf8_quick-written u buf fits, c.bytes)
      (
        length (c.lead ∷ c.more),
        refl,
        subst (λ (t : ℕ). Replaces u t) (sym (c.reads _)) (check_code-Replaces u),
      )
