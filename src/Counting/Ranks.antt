-- ===== src/Counting/Ranks.antt =====
-- How many values of a list stand before another.
use mytests.Base.{ℕ, zero, suc, ◌+◌, ◌≤◌, ◌<◌, ◌≡◌, ◌≢◌, refl, arith}
use mytests.Base.{
  List, [], ◌∷◌, ltb, ◌==◌, if◌then◌else◌, get_or, take, length, dec_lt, ◌⊎◌, inl, inr,
}

-- The values below `k`, and those equal to it.
unfoldable pub below : ℕ → List ℕ → ℕ
below k [] = 0
below k (v ∷ vs) = let rest = below k vs in if ltb v k then suc rest else rest

unfoldable pub same : ℕ → List ℕ → ℕ
same k [] = 0
same k (v ∷ vs) = let rest = same k vs in if v == k then suc rest else rest

pub same-nil : (k : ℕ) → same k [] ≡ 0
unfolding same
same-nil k = refl

pub below-suc : (k : ℕ) (vs : List ℕ) → below (suc k) vs ≡ below k vs + same k vs
unfolding below same
below-suc k [] = refl
below-suc k (v ∷ vs) = ground (arith, below-suc k vs)

pub below-zero : (vs : List ℕ) → below 0 vs ≡ 0
unfolding below
below-zero [] = refl
below-zero (v ∷ vs) = ground (arith, below-zero vs)

pub below-le-length : (k : ℕ) (vs : List ℕ) → below k vs ≤ length vs
unfolding below
below-le-length k [] = omega arith
below-le-length k (v ∷ vs) = ground (arith, below-le-length k vs)

below-le-below : (k m : ℕ) (vs : List ℕ) → k ≤ m → below k vs ≤ below m vs
unfolding below
below-le-below k m [] h = omega arith
below-le-below k m (v ∷ vs) h = ground (arith, below-le-below k m vs h)

same-take-le : (k i j : ℕ) (vs : List ℕ) → i ≤ j → same k (take i vs) ≤ same k (take j vs)
unfolding same
same-take-le k zero j vs h = ground arith
same-take-le k (suc i) zero vs h = absurd (omega arith)
same-take-le k (suc i) (suc j) [] h = omega arith
same-take-le k (suc i) (suc j) (v ∷ vs) h = ground (arith, same-take-le k i j vs)

same-take-length : (k i : ℕ) (vs : List ℕ) → same k (take i vs) ≤ same k vs
unfolding same
same-take-length k zero vs = ground arith
same-take-length k (suc i) [] = omega arith
same-take-length k (suc i) (v ∷ vs) = ground (arith, same-take-length k i vs)

-- One more value is taken: it counts when it is equal.
pub same-take-suc :
    (k i : ℕ) (vs : List ℕ)
    → i < length vs
    → same k (take (suc i) vs)
      ≡ (if get_or vs i 0 == k then suc (same k (take i vs)) else same k (take i vs))
unfolding same
same-take-suc k i [] h = absurd (omega arith)
same-take-suc k zero (v ∷ vs) h = ground arith
same-take-suc k (suc i) (v ∷ vs) h = ground (arith, same-take-suc k i vs (omega arith))

-- The place of the value at `i` in the stable order: the smaller values and the equal ones before it.
unfoldable pub rank : List ℕ → ℕ → ℕ
rank vs i = below (get_or vs i 0) vs + same (get_or vs i 0) (take i vs)

-- The place is among the values up to this one.
rank-less : (vs : List ℕ) (i : ℕ) → i < length vs → rank vs i < below (suc (get_or vs i 0)) vs
unfolding rank
rank-less vs i h =
    let k = get_or vs i 0 in
    ground (arith, below-suc k vs, same-take-suc k i vs h, same-take-length k (suc i) vs)

pub rank-lt-length : (vs : List ℕ) (i : ℕ) → i < length vs → rank vs i < length vs
rank-lt-length vs i h = omega (arith, rank-less vs i h, below-le-length (suc (get_or vs i 0)) vs)

-- The stable order: by the value, and by the index where the values are equal.
abbrev pub Before : List ℕ → ℕ → ℕ → Type 0
Before vs j i = (get_or vs j 0 < get_or vs i 0) ⊎ ((get_or vs j 0 ≡ get_or vs i 0) × (j < i))

pub rank-Before :
    (vs : List ℕ) (j i : ℕ) → j < length vs → i < length vs → Before vs j i → rank vs j < rank vs i
unfolding rank
rank-Before vs j i hj hi (inl p) =
    omega (arith, rank-less vs j hj, below-le-below (suc (get_or vs j 0)) (get_or vs i 0) vs p)
rank-Before vs j i hj hi (inr (equal, h)) =
    let kj = get_or vs j 0 in
    let counted = same-take-suc kj j vs hj in
    let more = same-take-le kj (suc j) i vs h in
    ground (arith, equal, rw equal at counted, rw equal at more)

-- Two places differ.
pub rank-apart : (vs : List ℕ) (j i : ℕ) → j < i → i < length vs → rank vs j ≢ rank vs i
rank-apart vs j i h hi e =
    let hj : j < length vs = omega (arith, h, hi) in
    elim (dec_lt (get_or vs j 0) (get_or vs i 0)) [
      | yes p ↦ omega (arith, e, rank-Before vs j i hj hi (inl p))
      | no np ↦ elim (dec_lt (get_or vs i 0) (get_or vs j 0)) [
        | yes q ↦ omega (arith, e, rank-Before vs i j hi hj (inl q))
        | no nq ↦ omega (arith, e, rank-Before vs j i hj hi (inr (omega (arith, np, nq), h)))
      ]
    ]
