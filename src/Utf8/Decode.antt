-- ===== src/Utf8/Decode.antt =====
-- The decoder reads back what the encoders write, and refuses the code points that it names.
use mytests.Base.{ℕ, suc, ◌+◌, ◌*◌, ◌-◌, ◌%◌, ◌^◌, ◌≤◌, ◌<◌, ◌≡◌, refl, sym, ap, ◌∙◌, arith}
use mytests.Base.{some, List, ◌∷◌, bit_and, get_or}
use mytests.Base.Word.{IsByte, ◌>>>◌}
use mytests.Base.Digits.{bit_or_join, bit_and_low, bit_and_split, bit_and-zero, zero-bit_and}
use mytests.Base.Table.{passes, agree_below}
use mytests.Utf8.Defs.{high_bits_loop, high_bits_set, decode_loop, check_code, decode_utf8}
use mytests.Utf8.Spec.{leading_ones}

-- `high_bits_set` counts the leading ones of a byte.
pub high_bits_set-leading_ones : (c : ℕ) → IsByte c → high_bits_set c ≡ leading_ones c
unfolding high_bits_set high_bits_loop leading_ones passes
high_bits_set-leading_ones = agree_below high_bits_set leading_ones 256 refl

-- After eight shifts bit 7 is clear.
shifted_out : (k m r : ℕ) → high_bits_loop (suc k) (m * 256) r ≡ r
unfolding high_bits_loop
shifted_out k m r = ground (arith, bit_and_split 8 m 0 0 128, bit_and-zero m, zero-bit_and 128)

bit_gone : (c : ℕ) → bit_and (c * 256) 128 ≡ 0
bit_gone c = ground (arith, bit_and_split 8 c 0 0 128, bit_and-zero c, zero-bit_and 128)

-- The loop of `high_bits_set` ends within the fuel that the model gives it: more fuel changes
-- nothing.
pub high_bits_loop-fuel : (fuel c : ℕ) → 9 ≤ fuel → high_bits_loop fuel c 0 ≡ high_bits_set c
unfolding high_bits_set high_bits_loop
high_bits_loop-fuel (suc (suc (suc (suc (suc (suc (suc (suc (suc k))))))))) c h =
    ground (arith, bit_gone c)
high_bits_loop-fuel _ c h = absurd (omega arith)

mask_cont : (r : ℕ) → r < 64 → bit_and (128 + r) 0xc0 ≡ 0x80
mask_cont r h = ground (arith, bit_and_split 6 2 3 r 0, bit_and-zero r)

decode_step :
    (left : ℕ) (buf : List ℕ) (j code r : ℕ)
    → get_or buf j 0 ≡ 128 + r
    → r < 64
    → code < 2 ^ 58
    → decode_loop (suc left) buf j code ≡ decode_loop left buf (j + 1) (code * 64 + r)
unfolding decode_loop
decode_step left buf j code r e h small =
    ground (arith, mask_cont r, bit_and_low 6 (128 + r), bit_or_join 6 code r)

decode_end : (buf : List ℕ) (j code : ℕ) → decode_loop 0 buf j code ≡ some code
unfolding decode_loop
decode_end buf j code = refl

-- A lead byte `b` of a sequence of `n` bytes, and the bits `a` of the code that it holds.
abbrev pub IsLead : ℕ → ℕ → ℕ → Type 0
IsLead n b a = (high_bits_set b ≡ n) × (bit_and b (0xff >>> n) ≡ a)

IsLead-intro :
    (k b a : ℕ)
    → IsByte b
    → leading_ones b ≡ 8 - k
    → k ≤ 8
    → b % 2 ^ k ≡ a
    → bit_and b (2 ^ k - 1) ≡ bit_and b (0xff >>> (8 - k))
    → IsLead (8 - k) b a
IsLead-intro k b a h e small r same =
    (high_bits_set-leading_ones b h ∙ e, sym same ∙ bit_and_low k b ∙ r)

pub lead2_IsLead : (a : ℕ) → a < 32 → IsLead 2 (192 + a) a
unfolding leading_ones
lead2_IsLead a h =
    IsLead-intro 6 (192 + a) a (omega arith) (ground arith) (omega arith) (omega arith) refl

pub lead3_IsLead : (a : ℕ) → a < 16 → IsLead 3 (224 + a) a
unfolding leading_ones
lead3_IsLead a h =
    IsLead-intro 5 (224 + a) a (omega arith) (ground arith) (omega arith) (omega arith) refl

pub lead4_IsLead : (a : ℕ) → a < 8 → IsLead 4 (240 + a) a
unfolding leading_ones
lead4_IsLead a h =
    IsLead-intro 4 (240 + a) a (omega arith) (ground arith) (omega arith) (omega arith) refl

pub lead5_IsLead : (a : ℕ) → a < 4 → IsLead 5 (248 + a) a
unfolding leading_ones
lead5_IsLead a h =
    IsLead-intro 3 (248 + a) a (omega arith) (ground arith) (omega arith) (omega arith) refl

pub lead6_IsLead : (a : ℕ) → a < 2 → IsLead 6 (252 + a) a
unfolding leading_ones
lead6_IsLead a h =
    IsLead-intro 2 (252 + a) a (omega arith) (ground arith) (omega arith) (omega arith) refl

decode_lead :
    (k b a : ℕ) (bs : List ℕ)
    → IsLead (suc (suc k)) b a
    → decode_utf8 (b ∷ bs) (suc (suc k)) ≡ check_code (decode_loop (suc k) (b ∷ bs) 1 a)
unfolding decode_utf8
decode_lead k b a bs (ones, bits) = rw ones (rw bits (ground arith))

-- The digits of a code in base 64 behind a lead byte, with `rest` behind them.
module _ (rest : List ℕ) where
  pub decode2 :
      (b a r u : ℕ)
      → IsLead 2 b a
      → a < 32
      → r < 64
      → a * 64 + r ≡ u
      → decode_utf8 (b ∷ (128 + r) ∷ rest) 2 ≡ check_code (some u)
  decode2 b a r u l ha h e =
      let buf : List ℕ = b ∷ (128 + r) ∷ rest in
      decode_lead 0 b a _ l
      ∙ ap check_code
          (decode_step 0 buf 1 a r refl h (omega arith) ∙ decode_end buf 2 (a * 64 + r) ∙ ap some e)

  pub decode3 :
      (b a r s u : ℕ)
      → IsLead 3 b a
      → a < 32
      → r < 64
      → s < 64
      → (a * 64 + r) * 64 + s ≡ u
      → decode_utf8 (b ∷ (128 + r) ∷ (128 + s) ∷ rest) 3 ≡ check_code (some u)
  decode3 b a r s u l ha h k e =
      let buf : List ℕ = b ∷ (128 + r) ∷ (128 + s) ∷ rest in
      decode_lead 1 b a _ l
      ∙ ap check_code (
          decode_step 1 buf 1 a r refl h (omega arith)
          ∙ decode_step 0 buf 2 (a * 64 + r) s refl k (omega arith)
          ∙ decode_end buf 3 ((a * 64 + r) * 64 + s)
          ∙ ap some e)

  pub decode4 :
      (b a r s t u : ℕ)
      → IsLead 4 b a
      → a < 32
      → r < 64
      → s < 64
      → t < 64
      → ((a * 64 + r) * 64 + s) * 64 + t ≡ u
      → decode_utf8 (b ∷ (128 + r) ∷ (128 + s) ∷ (128 + t) ∷ rest) 4 ≡ check_code (some u)
  decode4 b a r s t u l ha h k m e =
      let buf : List ℕ = b ∷ (128 + r) ∷ (128 + s) ∷ (128 + t) ∷ rest in
      decode_lead 2 b a _ l
      ∙ ap check_code (
          decode_step 2 buf 1 a r refl h (omega arith)
          ∙ decode_step 1 buf 2 (a * 64 + r) s refl k (omega arith)
          ∙ decode_step 0 buf 3 ((a * 64 + r) * 64 + s) t refl m (omega arith)
          ∙ decode_end buf 4 (((a * 64 + r) * 64 + s) * 64 + t)
          ∙ ap some e)

  pub decode5 :
      (b a r s t v u : ℕ)
      → IsLead 5 b a
      → a < 32
      → r < 64
      → s < 64
      → t < 64
      → v < 64
      → (((a * 64 + r) * 64 + s) * 64 + t) * 64 + v ≡ u
      → decode_utf8 (b ∷ (128 + r) ∷ (128 + s) ∷ (128 + t) ∷ (128 + v) ∷ rest) 5
        ≡ check_code (some u)
  decode5 b a r s t v u l ha h k m n e =
      let buf : List ℕ = b ∷ (128 + r) ∷ (128 + s) ∷ (128 + t) ∷ (128 + v) ∷ rest in
      decode_lead 3 b a _ l
      ∙ ap check_code (
          decode_step 3 buf 1 a r refl h (omega arith)
          ∙ decode_step 2 buf 2 (a * 64 + r) s refl k (omega arith)
          ∙ decode_step 1 buf 3 ((a * 64 + r) * 64 + s) t refl m (omega arith)
          ∙ decode_step 0 buf 4 (((a * 64 + r) * 64 + s) * 64 + t) v refl n (omega arith)
          ∙ decode_end buf 5 ((((a * 64 + r) * 64 + s) * 64 + t) * 64 + v)
          ∙ ap some e)

  pub decode6 :
      (b a r s t v w u : ℕ)
      → IsLead 6 b a
      → a < 32
      → r < 64
      → s < 64
      → t < 64
      → v < 64
      → w < 64
      → ((((a * 64 + r) * 64 + s) * 64 + t) * 64 + v) * 64 + w ≡ u
      → decode_utf8 (b ∷ (128 + r) ∷ (128 + s) ∷ (128 + t) ∷ (128 + v) ∷ (128 + w) ∷ rest) 6
        ≡ check_code (some u)
  decode6 b a r s t v w u l ha h k m n o e =
      let buf : List ℕ = b ∷ (128 + r) ∷ (128 + s) ∷ (128 + t) ∷ (128 + v) ∷ (128 + w) ∷ rest in
      decode_lead 4 b a _ l
      ∙ ap check_code (
          decode_step 4 buf 1 a r refl h (omega arith)
          ∙ decode_step 3 buf 2 (a * 64 + r) s refl k (omega arith)
          ∙ decode_step 2 buf 3 ((a * 64 + r) * 64 + s) t refl m (omega arith)
          ∙ decode_step 1 buf 4 (((a * 64 + r) * 64 + s) * 64 + t) v refl n (omega arith)
          ∙ decode_step 0 buf 5 ((((a * 64 + r) * 64 + s) * 64 + t) * 64 + v) w refl o (omega arith)
          ∙ decode_end buf 6 (((((a * 64 + r) * 64 + s) * 64 + t) * 64 + v) * 64 + w)
          ∙ ap some e)
