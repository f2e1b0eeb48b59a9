-- ===== src/Utf8/Spec.antt =====
-- UTF-8 in plain arithmetic: the bytes of a code point, independent of the C code.
use mytests.Base.{ℕ, ◌+◌, ◌/◌, ◌%◌, Option, none, some, List, [], ◌∷◌, ◌++◌, ltb, if◌then◌else◌}
use mytests.Base.{length, drop}
use mytests.Utf8.Defs.{Encoded}

-- A continuation byte holds six bits.
abbrev pub cont : ℕ → ℕ
cont u = 128 + u % 64

unfoldable pub bytes2 : ℕ → List ℕ
bytes2 u = (192 + u / 64) ∷ cont u ∷ []

unfoldable pub bytes3 : ℕ → List ℕ
bytes3 u = (224 + u / 4096) ∷ cont (u / 64) ∷ cont u ∷ []

unfoldable pub bytes4 : ℕ → List ℕ
bytes4 u = (240 + u / 262144) ∷ cont (u / 4096) ∷ cont (u / 64) ∷ cont u ∷ []

unfoldable pub bytes5 : ℕ → List ℕ
bytes5 u = (248 + u / 16777216) ∷ cont (u / 262144) ∷ cont (u / 4096) ∷ cont (u / 64) ∷ cont u ∷ []

unfoldable pub bytes6 : ℕ → List ℕ
bytes6 u =
    (252 + u / 1073741824)
    ∷ cont (u / 16777216)
    ∷ cont (u / 262144)
    ∷ cont (u / 4096)
    ∷ cont (u / 64)
    ∷ cont u
    ∷ []

-- The shortest form of a code point; none from 2 ^ 31 on.
unfoldable pub utf8_bytes : ℕ → Option (List ℕ)
unfolding bytes2 bytes3 bytes4 bytes5 bytes6
utf8_bytes u =
    if ltb u 0x80
    then some (u ∷ [])
    else if ltb u 0x800
    then some (bytes2 u)
    else if ltb u 0x10000
    then some (bytes3 u)
    else if ltb u 0x200000
    then some (bytes4 u)
    else if ltb u 0x4000000
    then some (bytes5 u)
    else if ltb u 0x80000000
    then some (bytes6 u)
    else none

-- What an encoder must do: put the bytes at the front of the buffer, leave what follows, and
-- return their number; with no encoding it returns -1 and writes nothing.
abbrev pub written : Option (List ℕ) → List ℕ → Encoded
written none buf = record { ret = none; buf = buf }
written (some bs) buf = record { ret = some (length bs); buf = bs ++ drop (length bs) buf }

-- How many leading bits of a byte are set.
unfoldable pub leading_ones : ℕ → ℕ
leading_ones c =
    if ltb c 128
    then 0
    else if ltb c 192
    then 1
    else if ltb c 224
    then 2
    else if ltb c 240
    then 3
    else if ltb c 248
    then 4
    else if ltb c 252
    then 5
    else if ltb c 254
    then 6
    else if ltb c 255
    then 7
    else 8
