-- ===== src/Ascii/Lanes.antt =====
-- The vector test of ascii.c is the byte-wise one.
use mytests.Base.{ℕ, zero, suc, ◌+◌, ◌≤◌, ◌≡◌, refl, sym, ◌∙◌, arith, Bool, true, false, not, ◌&&◌}
use mytests.Base.{
  List, [], ◌∷◌, bit_or, leb, if◌then◌else◌, take, drop, replicate, length, length-take,
  length-drop, All,
}
use mytests.Base.{drop-drop, All-drop}
use mytests.Base.Word.{IsByte}
use mytests.Base.Digits.{bit_or_misses}
use mytests.Ascii.Defs.{vorrq_u8, vmaxvq_u8, neon_loop, ascii_neon, ascii_u64}
use mytests.Ascii.Words.{all_ascii, all_ascii-take-drop, top_bit, ascii_u64-all_ascii}

-- A vector of 16 bytes.
record IsVector (v : List ℕ) : Type 0 where
  lanes : length v ≡ 16
  bytes : All IsByte v

vorrq_u8-all_ascii :
    (v w : List ℕ)
    → length v ≡ length w
    → All IsByte v
    → All IsByte w
    → all_ascii (vorrq_u8 v w) ≡ (all_ascii v && all_ascii w)
unfolding vorrq_u8 all_ascii
vorrq_u8-all_ascii [] [] e h k = refl
vorrq_u8-all_ascii [] (b ∷ w) e h k = absurd (omega (arith, e))
vorrq_u8-all_ascii (a ∷ v) [] e h k = absurd (omega (arith, e))
vorrq_u8-all_ascii (a ∷ v) (b ∷ w) e (h, hs) (k, ks) = ground (
  arith,
  top_bit (bit_or a b),
  top_bit a,
  top_bit b,
  bit_or_misses a b 0x80,
  vorrq_u8-all_ascii v w (omega (arith, e)) hs ks,
)

vorrq_u8-bytes : (v w : List ℕ) → All IsByte (vorrq_u8 v w)
unfolding vorrq_u8
vorrq_u8-bytes [] w = tt
vorrq_u8-bytes (a ∷ v) [] = tt
vorrq_u8-bytes (a ∷ v) (b ∷ w) = (omega arith, vorrq_u8-bytes v w)

length-vorrq_u8 : (v w : List ℕ) → length v ≡ length w → length (vorrq_u8 v w) ≡ length v
unfolding vorrq_u8
length-vorrq_u8 [] w e = refl
length-vorrq_u8 (a ∷ v) [] e = absurd (omega (arith, e))
length-vorrq_u8 (a ∷ v) (b ∷ w) e = omega (arith, length-vorrq_u8 v w (omega (arith, e)))

vorrq_u8-IsVector : (v w : List ℕ) → IsVector v → IsVector w → IsVector (vorrq_u8 v w)
vorrq_u8-IsVector v w h k = record {
  lanes = length-vorrq_u8 v w (h.lanes ∙ sym k.lanes) ∙ h.lanes;
  bytes = vorrq_u8-bytes v w;
}

vmaxvq_u8-all_ascii : (v : List ℕ) → leb 0x80 (vmaxvq_u8 v) ≡ not (all_ascii v)
unfolding vmaxvq_u8 all_ascii
vmaxvq_u8-all_ascii [] = refl
vmaxvq_u8-all_ascii (a ∷ v) = ground (arith, vmaxvq_u8-all_ascii v)

All-take : (n : ℕ) (bs : List ℕ) → All IsByte bs → All IsByte (take n bs)
All-take zero bs h = tt
All-take (suc n) [] h = tt
All-take (suc n) (b ∷ bs) (h, hs) = (h, All-take n bs hs)

-- A vector that is loaded.
take-IsVector : (bs : List ℕ) → 16 ≤ length bs → All IsByte bs → IsVector (take 16 bs)
take-IsVector bs h k = record {
  lanes = omega (arith, length-take 16 bs, h);
  bytes = All-take 16 bs k;
}

-- What the loop keeps.
record Kept (dat or1 or2 : List ℕ) (r : List ℕ × List ℕ × List ℕ) : Type 0 where
  vector1 : IsVector r.0
  vector2 : IsVector r.1
  rest : All IsByte r.2
  same :
      (all_ascii r.0 && all_ascii r.1 && all_ascii r.2)
      ≡ (all_ascii or1 && all_ascii or2 && all_ascii dat)

Kept-round :
    (dat or1 or2 v w rest : List ℕ) (r : List ℕ × List ℕ × List ℕ)
    → IsVector or1
    → IsVector or2
    → IsVector v
    → IsVector w
    → (all_ascii v && all_ascii w && all_ascii rest) ≡ all_ascii dat
    → Kept rest (vorrq_u8 or1 v) (vorrq_u8 or2 w) r
    → Kept dat or1 or2 r
Kept-round dat or1 or2 v w rest r h1 h2 hv hw e k = record {
  vector1 = k.vector1;
  vector2 = k.vector2;
  rest = k.rest;
  same = ground (
    arith,
    e,
    k.same,
    vorrq_u8-all_ascii or1 v (h1.lanes ∙ sym hv.lanes) h1.bytes hv.bytes,
    vorrq_u8-all_ascii or2 w (h2.lanes ∙ sym hw.lanes) h2.bytes hw.bytes,
  );
}

-- Two pieces of `n` bytes and the rest.
pieces :
    (n k : ℕ) (dat : List ℕ)
    → k ≡ n + n
    → (all_ascii (take n dat) && all_ascii (take n (drop n dat)) && all_ascii (drop k dat))
      ≡ all_ascii dat
pieces n k dat e =
    ground
      (arith, all_ascii-take-drop n dat, all_ascii-take-drop n (drop n dat), drop-drop n n k dat e)

neon_loop-Kept :
    (fuel : ℕ) (dat or1 or2 : List ℕ)
    → IsVector or1
    → IsVector or2
    → All IsByte dat
    → Kept dat or1 or2 (neon_loop fuel dat or1 or2)
unfolding neon_loop
neon_loop-Kept zero dat or1 or2 h k b = record { vector1 = h; vector2 = k; rest = b; same = refl }
neon_loop-Kept (suc fuel) dat or1 or2 h k b =
    go (leb 32 (length dat)) (λ e. fits dat (ground arith))
      (λ a c.
        neon_loop-Kept fuel (drop 32 dat) (vorrq_u8 or1 (take 16 dat))
          (vorrq_u8 or2 (take 16 (drop 16 dat))) a c (All-drop IsByte 32 dat b))
  where
    fits : (dat : List ℕ) → 32 ≤ length dat → (16 ≤ length dat) × (16 ≤ length (drop 16 dat))
    fits dat h = omega (arith, length-drop 16 dat)

    go :
        (t : Bool)
        → (t ≡ true → (16 ≤ length dat) × (16 ≤ length (drop 16 dat)))
        → (IsVector (vorrq_u8 or1 (take 16 dat))
            → IsVector (vorrq_u8 or2 (take 16 (drop 16 dat)))
            → Kept
                (drop 32 dat)
                (vorrq_u8 or1 (take 16 dat))
                (vorrq_u8 or2 (take 16 (drop 16 dat)))
                (neon_loop fuel
                  (drop 32 dat)
                  (vorrq_u8 or1 (take 16 dat))
                  (vorrq_u8 or2 (take 16 (drop 16 dat)))))
        → Kept dat or1 or2 (
            if t
            then neon_loop fuel
                (drop 32 dat)
                (vorrq_u8 or1 (take 16 dat))
                (vorrq_u8 or2 (take 16 (drop 16 dat)))
            else (or1, or2, dat))
    go false long next = record { vector1 = h; vector2 = k; rest = b; same = refl }
    go true long next =
        let v = take-IsVector dat (long refl).0 b in
        let w = take-IsVector (drop 16 dat) (long refl).1 (All-drop IsByte 16 dat b) in
        Kept-round dat or1 or2 (take 16 dat) (take 16 (drop 16 dat)) (drop 32 dat)
          (neon_loop fuel (drop 32 dat) (vorrq_u8 or1 (take 16 dat))
            (vorrq_u8 or2 (take 16 (drop 16 dat))))
          h k v w (pieces 16 32 dat refl)
          (next (vorrq_u8-IsVector or1 (take 16 dat) h v)
            (vorrq_u8-IsVector or2 (take 16 (drop 16 dat)) k w))

zeros-IsVector : IsVector (replicate 16 0)
zeros-IsVector = record { lanes = refl; bytes = omega arith }

zeros-all_ascii : all_ascii (replicate 16 0) ≡ true
unfolding all_ascii
zeros-all_ascii = refl

-- For every buffer of bytes, of any length, the vector version returns what ascii_u64 does.
pub ascii_neon-ascii_u64 : (dat : List ℕ) → All IsByte dat → ascii_neon dat ≡ ascii_u64 dat
unfolding ascii_neon
ascii_neon-ascii_u64 dat h =
    let r = neon_loop (length dat) dat (replicate 16 0) (replicate 16 0) in
    let k = neon_loop-Kept (length dat) dat _ _ zeros-IsVector zeros-IsVector h in
    ground (
      arith,
      k.same,
      zeros-all_ascii,
      vmaxvq_u8-all_ascii (vorrq_u8 r.0 r.1),
      vorrq_u8-all_ascii r.0 r.1 (k.vector1.lanes ∙ sym k.vector2.lanes) k.vector1.bytes
          k.vector2.bytes,
      ascii_u64-all_ascii r.2 k.rest,
      ascii_u64-all_ascii dat h,
    )
