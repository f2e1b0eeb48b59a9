-- ===== src/Utf8/Defs.antt =====
-- The encoders and the decoder of ceph-utf8/ceph-utf8.c. A buffer is a list of bytes; `unsigned
-- long` has 64 bits.
use mytests.Base.{ℕ, zero, suc, ◌+◌, ◌-◌, Bool, true, false, not, ◌&&◌, ◌||◌}
use mytests.Base.{Option, none, some, List, [], ◌∷◌, ◌++◌, bit_and, bit_or, take, drop, replicate}
use mytests.Base.{leb, ◌==◌, if◌then◌else◌, get_or, set, length}
use mytests.Base.Word.{u8, u64, ◌<<<◌, ◌>>>◌}

-- INVALID_UTF8_CHAR
abbrev pub invalid_utf8_char : ℕ
invalid_utf8_char = 0xffffffff

-- `while ((c & 0x80) == 0x80) { c <<= 1; ++ret; }`, on fuel.
unfoldable pub high_bits_loop : ℕ → ℕ → ℕ → ℕ
high_bits_loop zero c ret = ret
high_bits_loop (suc fuel) c ret =
    let rest = high_bits_loop fuel (c <<< 1) (ret + 1) in
    if bit_and c 0x80 == 0x80 then rest else ret

-- A byte has at most eight leading ones, so nine rounds are enough.
unfoldable pub high_bits_set : ℕ → ℕ
high_bits_set c = high_bits_loop 9 c 0

-- An encoder returns a length, or -1 as `none`, and the buffer as it leaves it.
pub record Encoded : Type 0 where
  pub ret : Option ℕ
  pub buf : List ℕ

abbrev pub max_val : List ℕ
max_val = 0x0000007f ∷ 0x000007ff ∷ 0x0000ffff ∷ 0x001fffff ∷ 0x03ffffff ∷ 0x7fffffff ∷ []

-- The search for the first `max_val[i]` that is not below `u`.
unfoldable pub find_size : ℕ → List ℕ → ℕ → ℕ
find_size i [] u = i
find_size i (m ∷ ms) u = if leb u m then i else find_size (i + 1) ms u

-- `for (j = ...; j > 0; --j) { buf[j] = 0x80 | (u & 0x3f); u >>= 6; }`, which both encoders have.
unfoldable pub fill : ℕ → ℕ → List ℕ → ℕ × List ℕ
fill zero u buf = (u, buf)
fill (suc j) u buf = fill j (u >>> 6) (set buf (suc j) (u8 (bit_or 0x80 (bit_and u 0x3f))))

-- The body of the encoder once `i` is known.
unfoldable pub encode_at : ℕ → ℕ → List ℕ → Encoded
encode_at zero u buf = record { ret = some 1; buf = set buf 0 (u8 u) }
encode_at (suc i) u buf =
    let (u', buf') = fill (suc i) u buf in
    let mask = u8 (255 - (0xff >>> (suc i + 1))) in
    record { ret = some (suc i + 1); buf = set buf' 0 (u8 (bit_or mask u')) }

unfoldable pub encode_utf8 : ℕ → List ℕ → Encoded
unfolding find_size
encode_utf8 u buf =
    let i = find_size 0 max_val u in
    if i == length max_val then record { ret = none; buf = buf } else encode_at i u buf

-- The branch of `encode_utf8_quick` for rare code points.
unfoldable pub encode_rare : ℕ → List ℕ → Encoded
encode_rare u buf =
    let (u5, buf5) = fill 4 u buf in
    let (u6, buf6) = fill 5 u buf in
    if leb u 0x03ffffff
    then record { ret = some 5; buf = set buf5 0 (u8 (bit_or 0xf8 u5)) }
    else if leb u 0x7fffffff
    then record { ret = some 6; buf = set buf6 0 (u8 (bit_or 0xfc u6)) }
    else record { ret = none; buf = buf }

unfoldable pub encode_utf8_quick : ℕ → List ℕ → Encoded
encode_utf8_quick u buf =
    if leb u 0x7f
    then record { ret = some 1; buf = set buf 0 (u8 u) }
    else if leb u 0x7ff
    then record {
      ret = some 2;
      buf = set (set buf 0 (u8 (bit_or 0xc0 (u >>> 6)))) 1 (u8 (bit_or 0x80 (bit_and u 0x3f)));
    }
    else if leb u 0xffff
    then record {
      ret = some 3;
      buf =
          set
            (set (set buf 0 (u8 (bit_or 0xe0 (u >>> 12)))) 1
              (u8 (bit_or 0x80 (bit_and (u >>> 6) 0x3f))))
            2 (u8 (bit_or 0x80 (bit_and u 0x3f)));
    }
    else if leb u 0x1fffff
    then record {
      ret = some 4;
      buf =
          set
            (set
              (set (set buf 0 (u8 (bit_or 0xf0 (u >>> 18)))) 1
                (u8 (bit_or 0x80 (bit_and (u >>> 12) 0x3f))))
              2 (u8 (bit_or 0x80 (bit_and (u >>> 6) 0x3f))))
            3 (u8 (bit_or 0x80 (bit_and u 0x3f)));
    }
    else encode_rare u buf

-- The loop over the continuation bytes, from index `j`; `none` is an early return of
-- INVALID_UTF8_CHAR. Its first argument counts the rounds left.
unfoldable pub decode_loop : ℕ → List ℕ → ℕ → ℕ → Option ℕ
decode_loop zero buf j code = some code
decode_loop (suc left) buf j code =
    let b = get_or buf j 0 in
    if not (bit_and b 0xc0 == 0x80)
    then none
    else decode_loop left buf (j + 1) (bit_or (u64 (code <<< 6)) (bit_and b 0x3f))

-- The code points that the decoder refuses.
abbrev pub is_bad_code : ℕ → Bool
is_bad_code code = code == 0xfffe || code == 0xffff || (leb 0xd800 code && leb code 0xdfff)

-- The end of the decoder: an early return of the loop, or the check of the code point.
abbrev pub check_code : Option ℕ → ℕ
check_code none = invalid_utf8_char
check_code (some code) = if is_bad_code code then invalid_utf8_char else code

-- `nbytes` is an `int`: a negative one takes the branch of 0.
unfoldable pub decode_utf8 : List ℕ → ℕ → ℕ
decode_utf8 buf nbytes =
    if leb nbytes 0
    then invalid_utf8_char
    else if nbytes == 1
    then (if leb 0x80 (get_or buf 0 0) then invalid_utf8_char else get_or buf 0 0)
    else let i = high_bits_set (get_or buf 0 0) in
      if not (i == nbytes)
      then invalid_utf8_char
      else check_code (decode_loop (nbytes - 1) buf 1 (bit_and (get_or buf 0 0) (0xff >>> i)))

-- `n = high_bits_set(*data2); n += !n;`
unfoldable pub code_width : ℕ → ℕ
code_width b = let n = high_bits_set b in if n == 0 then n + 1 else n

-- How the validation in `main` ends: with the decoded codes, or by a failed `assert`. `stuck` is no
-- behaviour of the C code: the loop ran out of fuel.
pub data Decoded : Type 0 where
  decoded : List ℕ → Decoded
  failed stuck : Decoded

abbrev pub put_code : ℕ → Decoded → Decoded
put_code c (decoded cs) = decoded (c ∷ cs)
put_code c failed = failed
put_code c stuck = stuck

-- The decoding loop of `main`.
unfoldable pub decode_all : ℕ → List ℕ → Decoded
decode_all fuel [] = decoded []
decode_all zero (b ∷ bs) = stuck
decode_all (suc fuel) (b ∷ bs) =
    let n = code_width b in
    let code = decode_utf8 (b ∷ bs) n in
    let rest = decode_all fuel (drop n (b ∷ bs)) in
    if code == invalid_utf8_char then failed else put_code code rest

-- The encoding loop of `main`: the bytes written, and the part of the buffer behind them.
-- `none` is a failed `assert(n > 0)`.
unfoldable pub encode_all : List ℕ → List ℕ → Option (List ℕ × List ℕ)
encode_all [] buf = some ([], buf)
encode_all (c ∷ cs) buf =
    let e = encode_utf8_quick c buf in
    elim e.ret [
      | none ↦ none
      | some n ↦ elim (encode_all cs (drop n e.buf)) [
        | none ↦ none
        | some r ↦ some (take n e.buf ++ r.0, r.1)
      ]
    ]

-- `memcmp(encoded, data, len) == 0`
unfoldable pub same_bytes : List ℕ → List ℕ → Bool
same_bytes [] [] = true
same_bytes (a ∷ as') (b ∷ bs) = a == b && same_bytes as' bs
same_bytes _ _ = false

-- `main` up to "validation ok": decode `data`, encode the codes into `buf`, which has as many
-- bytes, and compare.
unfoldable pub validate : List ℕ → List ℕ → Bool
validate dat buf = elim (decode_all (length dat) dat) [
  | decoded cs ↦ elim (encode_all cs buf) [
    | none ↦ false
    | some r ↦ length r.1 == 0 && same_bytes r.0 dat
  ]
  | failed ↦ false
  | stuck ↦ false
]

-- `load_test_buf`: the pattern as often as it fits, then 0x7f. The loops count the bytes left.
abbrev pub test_pattern : List ℕ
test_pattern = 0x55 ∷ 0xc7 ∷ 0x99 ∷ 0xef ∷ 0x88 ∷ 0xbf ∷ 0xf0 ∷ 0x90 ∷ 0xbf ∷ 0x80 ∷ []

unfoldable pub load_test_loop : ℕ → ℕ → List ℕ
load_test_loop zero len = replicate len 0x7f
load_test_loop (suc fuel) len =
    let rest = load_test_loop fuel (len - length test_pattern) in
    if leb (length test_pattern) len then test_pattern ++ rest else replicate len 0x7f

unfoldable pub load_test_buf : ℕ → List ℕ
unfolding load_test_loop
load_test_buf len = load_test_loop len len
