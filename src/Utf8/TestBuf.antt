-- ===== src/Utf8/TestBuf.antt =====
-- The sample of `load_test_buf`, and the validation of `main` on it.
use mytests.Base.{ℕ, zero, suc, ◌-◌, ◌≡◌, refl, ap, ◌∙◌, arith, true}
use mytests.Base.{List, [], ◌∷◌, ◌++◌, length, replicate, All, Bool-cases, inl, inr, leb}
use mytests.Utf8.Defs.{test_pattern, load_test_loop, load_test_buf, validate}
use mytests.Utf8.Spec.{utf8_bytes, bytes2, bytes3, bytes4}
use mytests.Utf8.Stream.{IsCode, stream, validate-stream}

length-replicate : (n b : ℕ) → length (replicate n b) ≡ n
length-replicate zero b = refl
length-replicate (suc n) b = ap suc (length-replicate n b)

-- `load_test_buf` fills exactly the bytes that it was asked for.
length-load_test_loop : (fuel len : ℕ) → length (load_test_loop fuel len) ≡ len
unfolding load_test_loop
length-load_test_loop zero len = length-replicate len 0x7f
length-load_test_loop (suc fuel) len =
    ground (arith, length-replicate len 0x7f, length-load_test_loop fuel (len - 10))

abbrev pattern_codes : List ℕ
pattern_codes = 0x55 ∷ 0x1d9 ∷ 0xf23f ∷ 0x10fc0 ∷ []

pattern_stream : (us : List ℕ) → stream (pattern_codes ++ us) ≡ test_pattern ++ stream us
unfolding stream utf8_bytes bytes2 bytes3 bytes4
pattern_stream us = refl

filler_stream :
    (n : ℕ) → All IsCode (replicate n 0x7f) × (stream (replicate n 0x7f) ≡ replicate n 0x7f)
unfolding stream utf8_bytes
filler_stream zero = (tt, refl)
filler_stream (suc n) =
    let (good, e) = filler_stream n in (((omega arith, refl), good), ap (◌∷◌ 0x7f) e)

-- The sample as a stream of code points.
record Sample (bytes : List ℕ) : Type 0 where
  codes : List ℕ
  good : All IsCode codes
  same : stream codes ≡ bytes

Sample-of : (fuel len : ℕ) → Sample (load_test_loop fuel len)
unfolding load_test_loop
Sample-of zero len =
    let (good, e) = filler_stream len in
    record { codes = replicate len 0x7f; good = good; same = e }
Sample-of (suc fuel) len = elim (Bool-cases (leb 10 len)) [
  | inl fits ↦
      let s = Sample-of fuel (len - 10) in
      rw fits (record {
        codes = pattern_codes ++ s.codes;
        good = (
          (omega arith, refl),
          ((omega arith, refl), ((omega arith, refl), ((omega arith, refl), s.good))),
        );
        same = pattern_stream s.codes ∙ ap (◌++◌ test_pattern) s.same;
      })
  | inr small ↦
      let (good, e) = filler_stream len in
      rw small (record { codes = replicate len 0x7f; good = good; same = e })
]

-- For every sample size `main` gets past its assertions: `load_test_buf` fills exactly `len` bytes,
-- they decode, and the optimised encoder reproduces them in a buffer of `len` bytes.
pub validate-load_test_buf :
    (len : ℕ) (buf : List ℕ)
    → length buf ≡ len
    → (length (load_test_buf len) ≡ len) × (validate (load_test_buf len) buf ≡ true)
unfolding load_test_buf
validate-load_test_buf len buf room =
    let s = Sample-of len len in
    let full = length-load_test_loop len len in
    (full, rw (← s.same) (validate-stream s.codes buf s.good (omega (arith, ap length s.same))))
