-- ===== src/Utf8Len/Examples.antt =====
-- Texts counted by utf8-len.c, and the theorems there.
use mytests.Base.{ℕ, ◌≡◌, ◌≢◌, ◌↔◌, refl, arith, List, [], ◌∷◌}
use mytests.Utf8Len.Defs.{
  utf8_char_length, counted, error, stuck, check_conts, length_loop, utf8_length, utf8_length_tbl,
}
use mytests.Utf8Len.Chars.{Chars, utf8_length-Chars, utf8_length_tbl-utf8_length}

-- "A", the euro sign and "z"
abbrev text : List ℕ
text = 0x41 ∷ 0xe2 ∷ 0x82 ∷ 0xac ∷ 0x7a ∷ []

three_chars : utf8_length text ≡ counted 3
unfolding utf8_length length_loop utf8_char_length check_conts
three_chars = refl

cut_short : utf8_length (0x41 ∷ 0xe2 ∷ 0x82 ∷ []) ≡ error
unfolding utf8_length length_loop utf8_char_length check_conts
cut_short = refl

utf8_length-Chars_example :
    ((n : ℕ) → (utf8_length text ≡ counted n) ↔ Chars n text) × (utf8_length text ≢ stuck)
utf8_length-Chars_example = utf8_length-Chars text (omega arith)

utf8_length_tbl-utf8_length_example : utf8_length_tbl text ≡ utf8_length text
utf8_length_tbl-utf8_length_example = utf8_length_tbl-utf8_length text (omega arith)
