-- ===== src/Utf8/Examples.antt =====
-- Runs of the codec on concrete bytes, and the theorems at concrete inputs.
use mytests.Base.{ℕ, ◌≡◌, refl, arith, true, some, List, [], ◌∷◌, replicate}
use mytests.Utf8.Defs.{
  fill, encode_at, encode_utf8, encode_utf8_quick, high_bits_loop, high_bits_set, decode_loop,
  decode_utf8, validate, invalid_utf8_char,
}
use mytests.Utf8.Spec.{utf8_bytes, bytes3}
use mytests.Utf8.Encode.{Fits, encode_utf8_quick-encode_utf8}
use mytests.Utf8.RoundTrip.{Replaces, decode_utf8-encode_utf8_quick}
use mytests.Utf8.Stream.{stream, validate-stream}

abbrev six_zeros : List ℕ
six_zeros = replicate 6 0

-- U+20AC
euro : (encode_utf8 0x20ac six_zeros).buf ≡ 0xe2 ∷ 0x82 ∷ 0xac ∷ 0 ∷ 0 ∷ 0 ∷ []
unfolding encode_utf8 encode_at fill
euro = refl

-- The decoder accepts a form that is longer than it need be.
overlong_slash : decode_utf8 (0xc0 ∷ 0xaf ∷ []) 2 ≡ 0x2f
unfolding decode_utf8 decode_loop high_bits_set high_bits_loop
overlong_slash = refl

stray_continuation : decode_utf8 (0x80 ∷ []) 1 ≡ invalid_utf8_char
unfolding decode_utf8
stray_continuation = refl

euro-Fits : Fits 0x20ac six_zeros
unfolding utf8_bytes bytes3
euro-Fits bs e = ground arith

encode_utf8_quick-encode_utf8_example :
    encode_utf8_quick 0x20ac six_zeros ≡ encode_utf8 0x20ac six_zeros
encode_utf8_quick-encode_utf8_example = encode_utf8_quick-encode_utf8 0x20ac six_zeros euro-Fits

decode_utf8-encode_utf8_quick_example :
    (n : ℕ) × ((encode_utf8_quick 0x20ac six_zeros).ret ≡ some n)
    × Replaces 0x20ac (decode_utf8 (encode_utf8_quick 0x20ac six_zeros).buf n)
decode_utf8-encode_utf8_quick_example =
    decode_utf8-encode_utf8_quick 0x20ac six_zeros (omega arith) euro-Fits

abbrev two_codes : List ℕ
two_codes = 0x41 ∷ 0x20ac ∷ []

validate-stream_example : validate (stream two_codes) (replicate 4 0) ≡ true
unfolding stream utf8_bytes bytes3
validate-stream_example =
    validate-stream two_codes (replicate 4 0) ((omega arith, refl), ((omega arith, refl), tt)) refl
