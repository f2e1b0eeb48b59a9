-- ===== src/Utf8/Stream.antt =====
-- The validation of `main`: a stream of code points survives decoding and encoding.
use mytests.Base.{drop-drop}
use mytests.Base.{ℕ, zero, suc, ◌+◌, ◌^◌, ◌≤◌, ◌<◌, ◌≡◌, refl, ap, arith, true, false}
use mytests.Base.{none, some, List, [], ◌∷◌, ◌++◌, length, take, drop, All}
use mytests.Base.{length-append, length-drop}
use mytests.Utf8.Defs.{is_bad_code, decoded, put_code, decode_all, encode_all, same_bytes, validate}
use mytests.Utf8.Spec.{utf8_bytes}
use mytests.Utf8.Encode.{Fits, encode_utf8_quick-written}
use mytests.Utf8.RoundTrip.{Coded, code_bytes}

-- Code points that the encoder can write and the decoder accepts.
abbrev pub IsCode : ℕ → Type 0
IsCode u = (u < 2 ^ 31) × (is_bad_code u ≡ false)

-- The bytes of a sequence of code points, one after the other.
unfoldable pub stream : List ℕ → List ℕ
stream [] = []
stream (u ∷ us) = elim (utf8_bytes u) [ none ↦ [] | some bs ↦ bs ] ++ stream us

take-append {ℓ} : {A : Type ℓ} (xs ys : List A) → take (length xs) (xs ++ ys) ≡ xs
take-append [] ys = refl
take-append (x ∷ xs) ys = rw (take-append xs ys)

drop-append {ℓ} : {A : Type ℓ} (xs ys : List A) → drop (length xs) (xs ++ ys) ≡ ys
drop-append [] ys = refl
drop-append (x ∷ xs) ys = drop-append xs ys

stream-cons : (u : ℕ) (us : List ℕ) (c : Coded u) → stream (u ∷ us) ≡ (c.lead ∷ c.more) ++ stream us
unfolding stream
stream-cons u us c = rw c.bytes

length-stream :
    (u : ℕ) (us : List ℕ) (c : Coded u)
    → length (stream (u ∷ us)) ≡ suc (length c.more) + length (stream us)
length-stream u us c = rw (stream-cons u us c) (length-append (c.lead ∷ c.more) (stream us))

decode_all-cons :
    (fuel u : ℕ) (c : Coded u) (rest : List ℕ)
    → IsCode u
    → decode_all (suc fuel) ((c.lead ∷ c.more) ++ rest) ≡ put_code u (decode_all fuel rest)
unfolding decode_all
decode_all-cons fuel u c rest (small, good) =
    rw (c.width, drop-append c.more rest, c.reads rest, good) (ground arith)

decode_all-stream :
    (us : List ℕ) (fuel : ℕ)
    → All IsCode us
    → length (stream us) ≤ fuel
    → decode_all fuel (stream us) ≡ decoded us
decode_all-stream [] fuel h le = unfold decode_all stream in refl
decode_all-stream (u ∷ us) zero (hu, hus) le =
    absurd (omega (arith, length-stream u us (code_bytes u hu.0)))
decode_all-stream (u ∷ us) (suc fuel) (hu, hus) le =
    let c = code_bytes u hu.0 in
    rw (stream-cons u us c, decode_all-cons fuel u c (stream us) hu)
      (ap (put_code u) (decode_all-stream us fuel hus (omega (arith, length-stream u us c))))

Fits-of : (u : ℕ) (c : Coded u) (buf : List ℕ) → length (c.lead ∷ c.more) ≤ length buf → Fits u buf
Fits-of u c buf le bs e = ground (arith, c.bytes)

encode_all-cons :
    (u : ℕ) (us buf : List ℕ) (c : Coded u) (rest tail' : List ℕ)
    → length (c.lead ∷ c.more) ≤ length buf
    → encode_all us (drop (length (c.lead ∷ c.more)) buf) ≡ some (rest, tail')
    → encode_all (u ∷ us) buf ≡ some ((c.lead ∷ c.more) ++ rest, tail')
unfolding encode_all
encode_all-cons u us buf c rest tail' le e = ground (
  arith,
  encode_utf8_quick-written u buf (Fits-of u c buf le),
  c.bytes,
  take-append (c.lead ∷ c.more) (drop (suc (length c.more)) buf),
  drop-append (c.lead ∷ c.more) (drop (suc (length c.more)) buf),
)

encode_all-stream :
    (us buf : List ℕ)
    → All IsCode us
    → length (stream us) ≤ length buf
    → encode_all us buf ≡ some (stream us, drop (length (stream us)) buf)
encode_all-stream [] buf h le = unfold encode_all stream in refl
encode_all-stream (u ∷ us) buf (hu, hus) le =
    let c = code_bytes u hu.0 in
    let m = length (c.lead ∷ c.more) in
    let rest = drop (length (stream us)) (drop m buf) in
    let here : m ≤ length buf = omega (arith, length-stream u us c) in
    let there : encode_all us (drop m buf) ≡ some (stream us, rest) =
      encode_all-stream us (drop m buf) hus
        (omega (arith, length-stream u us c, length-drop m buf)) in
    rw
      (
        length-stream u us c,
        stream-cons u us c,
        encode_all-cons u us buf c (stream us) rest here there,
      )
      (ap (λ (r : List ℕ). some ((c.lead ∷ c.more) ++ stream us, r))
        (drop-drop m (length (stream us)) (m + length (stream us)) buf refl))

same_bytes_self : (bs : List ℕ) → same_bytes bs bs ≡ true
unfolding same_bytes
same_bytes_self [] = refl
same_bytes_self (b ∷ bs) = ground (arith, same_bytes_self bs)

-- On every stream of code points that the decoder accepts, with an output buffer of the same
-- length, the validation of `main` passes: all decoding succeeds, the optimised encoder fills the
-- buffer exactly, and the bytes are those of the sample.
pub validate-stream :
    (us buf : List ℕ)
    → All IsCode us
    → length buf ≡ length (stream us)
    → validate (stream us) buf ≡ true
unfolding validate
validate-stream us buf h room = ground (
  arith,
  decode_all-stream us (length (stream us)) h (omega arith),
  encode_all-stream us buf h (omega arith),
  length-drop (length (stream us)) buf,
  same_bytes_self (stream us),
)
