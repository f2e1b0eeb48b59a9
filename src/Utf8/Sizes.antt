-- ===== src/Utf8/Sizes.antt =====
-- The shortest form of a code point by its range.
use mytests.Base.{ℕ, ◌<◌, ◌≡◌, arith, dec_lt, none, some, [], ◌∷◌}
use mytests.Utf8.Spec.{bytes2, bytes3, bytes4, bytes5, bytes6, utf8_bytes}

-- A code point and its bytes.
pub data Sized (u : ℕ) : Type 0 where
  size1 : u < 0x80 → utf8_bytes u ≡ some (u ∷ []) → Sized u
  size2 : 0x7f < u → u < 0x800 → utf8_bytes u ≡ some (bytes2 u) → Sized u
  size3 : 0x7ff < u → u < 0x10000 → utf8_bytes u ≡ some (bytes3 u) → Sized u
  size4 : 0xffff < u → u < 0x200000 → utf8_bytes u ≡ some (bytes4 u) → Sized u
  size5 : 0x1fffff < u → u < 0x4000000 → utf8_bytes u ≡ some (bytes5 u) → Sized u
  size6 : 0x3ffffff < u → u < 0x80000000 → utf8_bytes u ≡ some (bytes6 u) → Sized u
  too_big : 0x7fffffff < u → utf8_bytes u ≡ none → Sized u

pub sized : (u : ℕ) → Sized u
unfolding utf8_bytes
sized u = elim (dec_lt u 0x80) [
  | yes h ↦ size1 h (ground arith)
  | no h1 ↦ elim (dec_lt u 0x800) [
    | yes h ↦ size2 (omega arith) h (ground arith)
    | no h2 ↦ elim (dec_lt u 0x10000) [
      | yes h ↦ size3 (omega arith) h (ground arith)
      | no h3 ↦ elim (dec_lt u 0x200000) [
        | yes h ↦ size4 (omega arith) h (ground arith)
        | no h4 ↦ elim (dec_lt u 0x4000000) [
          | yes h ↦ size5 (omega arith) h (ground arith)
          | no h5 ↦ elim (dec_lt u 0x80000000) [
            | yes h ↦ size6 (omega arith) h (ground arith)
            | no h6 ↦ too_big (omega arith) (ground arith)
          ]
        ]
      ]
    ]
  ]
]
