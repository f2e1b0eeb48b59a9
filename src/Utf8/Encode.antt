-- ===== src/Utf8/Encode.antt =====
-- Both encoders write the shortest form of the code point, so they are the same function.
use mytests.Base.{ℕ, ◌+◌, ◌/◌, ◌%◌, ◌≤◌, ◌<◌, ◌≡◌, sym, ◌∙◌, arith}
use mytests.Base.{none, some, List, [], ◌∷◌, bit_and, bit_or, length}
use mytests.Base.Word.{u8}
use mytests.Base.Digits.{bit_or_join, bit_and_low}
use mytests.Utf8.Defs.{fill, encode_at, encode_utf8, encode_rare, encode_utf8_quick}
use mytests.Utf8.Sizes.{sized, size1, size2, size3, size4, size5, size6, too_big}
use mytests.Utf8.Spec.{cont, bytes2, bytes3, bytes4, bytes5, bytes6, utf8_bytes, written}

-- `0x80 | (u & 0x3f)`
pub cont_byte : (u : ℕ) → u8 (bit_or 0x80 (bit_and u 0x3f)) ≡ cont u
cont_byte u = ground (arith, bit_and_low 6 u, bit_or_join 6 2 (u % 64))

pub lead2 : (x : ℕ) → x < 32 → u8 (bit_or 0xc0 x) ≡ 192 + x
lead2 x h = ground (arith, bit_or_join 5 6 x)

pub lead3 : (x : ℕ) → x < 16 → u8 (bit_or 0xe0 x) ≡ 224 + x
lead3 x h = ground (arith, bit_or_join 4 14 x)

pub lead4 : (x : ℕ) → x < 8 → u8 (bit_or 0xf0 x) ≡ 240 + x
lead4 x h = ground (arith, bit_or_join 3 30 x)

pub lead5 : (x : ℕ) → x < 4 → u8 (bit_or 0xf8 x) ≡ 248 + x
lead5 x h = ground (arith, bit_or_join 2 62 x)

pub lead6 : (x : ℕ) → x < 2 → u8 (bit_or 0xfc x) ≡ 252 + x
lead6 x h = ground (arith, bit_or_join 1 126 x)

-- The loop that fills in the continuation bytes, at each length.
module _ (u : ℕ) (rest : List ℕ) where
  fill1 : (b0 b1 : ℕ) → fill 1 u (b0 ∷ b1 ∷ rest) ≡ (u / 64, b0 ∷ cont u ∷ rest)
  unfolding fill
  fill1 b0 b1 = rw (cont_byte u)

  fill2 :
      (b0 b1 b2 : ℕ)
      → fill 2 u (b0 ∷ b1 ∷ b2 ∷ rest) ≡ (u / 64 / 64, b0 ∷ cont (u / 64) ∷ cont u ∷ rest)
  unfolding fill
  fill2 b0 b1 b2 = rw (cont_byte u, cont_byte (u / 64))

  fill3 :
      (b0 b1 b2 b3 : ℕ)
      → fill 3 u (b0 ∷ b1 ∷ b2 ∷ b3 ∷ rest)
        ≡ (u / 64 / 64 / 64, b0 ∷ cont (u / 64 / 64) ∷ cont (u / 64) ∷ cont u ∷ rest)
  unfolding fill
  fill3 b0 b1 b2 b3 = rw (cont_byte u, cont_byte (u / 64), cont_byte (u / 64 / 64))

  fill4 :
      (b0 b1 b2 b3 b4 : ℕ)
      → fill 4 u (b0 ∷ b1 ∷ b2 ∷ b3 ∷ b4 ∷ rest) ≡ (
        u / 64 / 64 / 64 / 64,
        b0 ∷ cont (u / 64 / 64 / 64) ∷ cont (u / 64 / 64) ∷ cont (u / 64) ∷ cont u ∷ rest,
      )
  unfolding fill
  fill4 b0 b1 b2 b3 b4 =
      rw (cont_byte u, cont_byte (u / 64), cont_byte (u / 64 / 64), cont_byte (u / 64 / 64 / 64))

  fill5 :
      (b0 b1 b2 b3 b4 b5 : ℕ)
      → fill 5 u (b0 ∷ b1 ∷ b2 ∷ b3 ∷ b4 ∷ b5 ∷ rest) ≡ (
        u / 64 / 64 / 64 / 64 / 64,
        b0
            ∷ cont (u / 64 / 64 / 64 / 64)
            ∷ cont (u / 64 / 64 / 64)
            ∷ cont (u / 64 / 64)
            ∷ cont (u / 64)
            ∷ cont u
            ∷ rest,
      )
  unfolding fill
  fill5 b0 b1 b2 b3 b4 b5 = rw (
    cont_byte u,
    cont_byte (u / 64),
    cont_byte (u / 64 / 64),
    cont_byte (u / 64 / 64 / 64),
    cont_byte (u / 64 / 64 / 64 / 64),
  )

-- `encode_utf8` on each range of code points.
module _ (u : ℕ) where
  slow1 :
      u < 0x80 → (buf : List ℕ) → 1 ≤ length buf → encode_utf8 u buf ≡ written (some (u ∷ [])) buf
  unfolding encode_utf8 encode_at
  slow1 h (b0 ∷ rest) k = ground arith
  slow1 h _ k = absurd (omega arith)

  slow2 :
      0x7f < u
      → u < 0x800
      → (buf : List ℕ) → 2 ≤ length buf
      → encode_utf8 u buf ≡ written (some (bytes2 u)) buf
  unfolding encode_utf8 encode_at bytes2
  slow2 g h (b0 ∷ b1 ∷ rest) k = ground (arith, fill1 u rest b0 b1, lead2 (u / 64))
  slow2 g h _ k = absurd (omega arith)

  slow3 :
      0x7ff < u
      → u < 0x10000
      → (buf : List ℕ) → 3 ≤ length buf
      → encode_utf8 u buf ≡ written (some (bytes3 u)) buf
  unfolding encode_utf8 encode_at bytes3
  slow3 g h (b0 ∷ b1 ∷ b2 ∷ rest) k = ground (arith, fill2 u rest b0 b1 b2, lead3 (u / 64 / 64))
  slow3 g h _ k = absurd (omega arith)

  slow4 :
      0xffff < u
      → u < 0x200000
      → (buf : List ℕ) → 4 ≤ length buf
      → encode_utf8 u buf ≡ written (some (bytes4 u)) buf
  unfolding encode_utf8 encode_at bytes4
  slow4 g h (b0 ∷ b1 ∷ b2 ∷ b3 ∷ rest) k =
      ground (arith, fill3 u rest b0 b1 b2 b3, lead4 (u / 64 / 64 / 64))
  slow4 g h _ k = absurd (omega arith)

  slow5 :
      0x1fffff < u
      → u < 0x4000000
      → (buf : List ℕ) → 5 ≤ length buf
      → encode_utf8 u buf ≡ written (some (bytes5 u)) buf
  unfolding encode_utf8 encode_at bytes5
  slow5 g h (b0 ∷ b1 ∷ b2 ∷ b3 ∷ b4 ∷ rest) k =
      ground (arith, fill4 u rest b0 b1 b2 b3 b4, lead5 (u / 64 / 64 / 64 / 64))
  slow5 g h _ k = absurd (omega arith)

  slow6 :
      0x3ffffff < u
      → u < 0x80000000
      → (buf : List ℕ) → 6 ≤ length buf
      → encode_utf8 u buf ≡ written (some (bytes6 u)) buf
  unfolding encode_utf8 encode_at bytes6
  slow6 g h (b0 ∷ b1 ∷ b2 ∷ b3 ∷ b4 ∷ b5 ∷ rest) k =
      ground (arith, fill5 u rest b0 b1 b2 b3 b4 b5, lead6 (u / 64 / 64 / 64 / 64 / 64))
  slow6 g h _ k = absurd (omega arith)

-- `encode_utf8_quick` on each range of code points.
module _ (u : ℕ) where
  quick1 :
      u < 0x80
      → (buf : List ℕ) → 1 ≤ length buf
      → encode_utf8_quick u buf ≡ written (some (u ∷ [])) buf
  unfolding encode_utf8_quick
  quick1 h (b0 ∷ rest) k = ground arith
  quick1 h _ k = absurd (omega arith)

  quick2 :
      0x7f < u
      → u < 0x800
      → (buf : List ℕ) → 2 ≤ length buf
      → encode_utf8_quick u buf ≡ written (some (bytes2 u)) buf
  unfolding encode_utf8_quick bytes2
  quick2 g h (b0 ∷ b1 ∷ rest) k = ground (arith, cont_byte u, lead2 (u / 64))
  quick2 g h _ k = absurd (omega arith)

  quick3 :
      0x7ff < u
      → u < 0x10000
      → (buf : List ℕ) → 3 ≤ length buf
      → encode_utf8_quick u buf ≡ written (some (bytes3 u)) buf
  unfolding encode_utf8_quick bytes3
  quick3 g h (b0 ∷ b1 ∷ b2 ∷ rest) k =
      ground (arith, cont_byte u, cont_byte (u / 64), lead3 (u / 4096))
  quick3 g h _ k = absurd (omega arith)

  quick4 :
      0xffff < u
      → u < 0x200000
      → (buf : List ℕ) → 4 ≤ length buf
      → encode_utf8_quick u buf ≡ written (some (bytes4 u)) buf
  unfolding encode_utf8_quick bytes4
  quick4 g h (b0 ∷ b1 ∷ b2 ∷ b3 ∷ rest) k =
      ground (arith, cont_byte u, cont_byte (u / 64), cont_byte (u / 4096), lead4 (u / 262144))
  quick4 g h _ k = absurd (omega arith)

  quick5 :
      0x1fffff < u
      → u < 0x4000000
      → (buf : List ℕ) → 5 ≤ length buf
      → encode_utf8_quick u buf ≡ written (some (bytes5 u)) buf
  unfolding encode_utf8_quick encode_rare bytes5
  quick5 g h (b0 ∷ b1 ∷ b2 ∷ b3 ∷ b4 ∷ rest) k =
      ground (arith, fill4 u rest b0 b1 b2 b3 b4, lead5 (u / 64 / 64 / 64 / 64))
  quick5 g h _ k = absurd (omega arith)

  quick6 :
      0x3ffffff < u
      → u < 0x80000000
      → (buf : List ℕ) → 6 ≤ length buf
      → encode_utf8_quick u buf ≡ written (some (bytes6 u)) buf
  unfolding encode_utf8_quick encode_rare bytes6
  quick6 g h (b0 ∷ b1 ∷ b2 ∷ b3 ∷ b4 ∷ b5 ∷ rest) k =
      ground (arith, fill5 u rest b0 b1 b2 b3 b4 b5, lead6 (u / 64 / 64 / 64 / 64 / 64))
  quick6 g h _ k = absurd (omega arith)

slow_big : (u : ℕ) → 0x7fffffff < u → (buf : List ℕ) → encode_utf8 u buf ≡ written none buf
unfolding encode_utf8
slow_big u h buf = ground arith

quick_big : (u : ℕ) → 0x7fffffff < u → (buf : List ℕ) → encode_utf8_quick u buf ≡ written none buf
unfolding encode_utf8_quick encode_rare
quick_big u h buf = ground arith

-- There is room in the buffer for the bytes of the code point, if it has any.
abbrev pub Fits : ℕ → List ℕ → Type 0
Fits u buf = (bs : List ℕ) → utf8_bytes u ≡ some bs → length bs ≤ length buf

-- `encode_utf8` writes the shortest form of every code point below 2 ^ 31 at the front of the
-- buffer, leaves the rest of the buffer alone and returns the length written; a larger code point
-- gives -1 and an unchanged buffer. The buffer has room for the bytes.
pub encode_utf8-written :
    (u : ℕ) (buf : List ℕ) → Fits u buf → encode_utf8 u buf ≡ written (utf8_bytes u) buf
unfolding bytes2 bytes3 bytes4 bytes5 bytes6
encode_utf8-written u buf fits = elim (sized u) [
  | size1 h e ↦ rw e (slow1 u h buf (fits _ e))
  | size2 g h e ↦ rw e (slow2 u g h buf (fits _ e))
  | size3 g h e ↦ rw e (slow3 u g h buf (fits _ e))
  | size4 g h e ↦ rw e (slow4 u g h buf (fits _ e))
  | size5 g h e ↦ rw e (slow5 u g h buf (fits _ e))
  | size6 g h e ↦ rw e (slow6 u g h buf (fits _ e))
  | too_big h e ↦ rw e (slow_big u h buf)
]

pub encode_utf8_quick-written :
    (u : ℕ) (buf : List ℕ) → Fits u buf → encode_utf8_quick u buf ≡ written (utf8_bytes u) buf
unfolding bytes2 bytes3 bytes4 bytes5 bytes6
encode_utf8_quick-written u buf fits = elim (sized u) [
  | size1 h e ↦ rw e (quick1 u h buf (fits _ e))
  | size2 g h e ↦ rw e (quick2 u g h buf (fits _ e))
  | size3 g h e ↦ rw e (quick3 u g h buf (fits _ e))
  | size4 g h e ↦ rw e (quick4 u g h buf (fits _ e))
  | size5 g h e ↦ rw e (quick5 u g h buf (fits _ e))
  | size6 g h e ↦ rw e (quick6 u g h buf (fits _ e))
  | too_big h e ↦ rw e (quick_big u h buf)
]

-- The optimised encoder returns the same value and leaves the same buffer as the loop encoder, for
-- every code point, those too big to encode included. The buffer has room for the bytes.
pub encode_utf8_quick-encode_utf8 :
    (u : ℕ) (buf : List ℕ) → Fits u buf → encode_utf8_quick u buf ≡ encode_utf8 u buf
encode_utf8_quick-encode_utf8 u buf fits =
    encode_utf8_quick-written u buf fits ∙ sym (encode_utf8-written u buf fits)
