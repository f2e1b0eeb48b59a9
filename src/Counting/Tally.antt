-- ===== src/Counting/Tally.antt =====
-- The arrays of counts of cpp/sort-range.cc and cpp/mode-range.cc.
use mytests.Base.{ℕ, zero, suc, ◌+◌, ◌-◌, ◌≤◌, ◌<◌, ◌^◌, ◌≡◌, some, refl, ap, ◌∙◌, arith}
use mytests.Base.{
  List, [], ◌∷◌, ◌==◌, if◌then◌else◌, get_or, set, take, length, length-set, get_or-set, All,
  replicate,
}
use Prim.Native.Nat.{min, max}
use mytests.Counting.Defs.{t_max, t_min, min_of, max_of, bump, tally, prefix_loop, range_of}
use mytests.Counting.Ranks.{below, same, below-suc}

pub length-bump : (cnt : List ℕ) (i : ℕ) → length (bump cnt i) ≡ length cnt
unfolding bump
length-bump cnt i = length-set cnt i (suc (get_or cnt i 0))

pub get_or-bump :
    (cnt : List ℕ) (i k : ℕ)
    → i < length cnt
    → get_or (bump cnt i) k 0 ≡ (if i == k then suc (get_or cnt k 0) else get_or cnt k 0)
unfolding bump
get_or-bump cnt i k h = ground (arith, get_or-set cnt i k (suc (get_or cnt i 0)) h)

-- The values as the distance from `low`.
unfoldable pub keys : ℕ → List ℕ → List ℕ
keys low [] = []
keys low (v ∷ vs) = (v - low) ∷ keys low vs

pub length-keys : (low : ℕ) (vs : List ℕ) → length (keys low vs) ≡ length vs
unfolding keys
length-keys low [] = refl
length-keys low (v ∷ vs) = ap suc (length-keys low vs)

pub get_or-keys : (low : ℕ) (vs : List ℕ) (i : ℕ) → get_or (keys low vs) i 0 ≡ get_or vs i 0 - low
unfolding keys
get_or-keys low [] i = omega arith
get_or-keys low (v ∷ vs) zero = refl
get_or-keys low (v ∷ vs) (suc i) = get_or-keys low vs i

pub take-keys : (low i : ℕ) (vs : List ℕ) → take i (keys low vs) ≡ keys low (take i vs)
unfolding keys
take-keys low zero vs = refl
take-keys low (suc i) [] = refl
take-keys low (suc i) (v ∷ vs) = ap (λ (t : List ℕ). (v - low) ∷ t) (take-keys low i vs)

-- Distances are ordered as the values are.
pub below-keys :
    (low k : ℕ) (vs : List ℕ)
    → low ≤ k
    → All (λ v. low ≤ v) vs
    → below (k - low) (keys low vs) ≡ below k vs
unfolding below keys
below-keys low k [] h _ = refl
below-keys low k (v ∷ vs) h (hv, hs) = ground (arith, hv, below-keys low k vs h hs)

pub same-keys :
    (low k : ℕ) (vs : List ℕ)
    → low ≤ k
    → All (λ v. low ≤ v) vs
    → same (k - low) (keys low vs) ≡ same k vs
unfolding same keys
same-keys low k [] h _ = refl
same-keys low k (v ∷ vs) h (hv, hs) = ground (arith, hv, same-keys low k vs h hs)

pub length-tally : (first low : ℕ) (vs cnt : List ℕ) → length (tally first low vs cnt) ≡ length cnt
unfolding tally
length-tally first low [] cnt = refl
length-tally first low (v ∷ vs) cnt =
    length-tally first low vs (bump cnt (v - low + first)) ∙ length-bump cnt (v - low + first)

-- Each count is the number of equal values; what lies before the first slot stays.
pub get_or-tally :
    (first low k : ℕ) (vs cnt : List ℕ)
    → All (λ v. v - low + first < length cnt) vs
    → get_or (tally first low vs cnt) (k + first) 0
      ≡ get_or cnt (k + first) 0 + same k (keys low vs)
unfolding tally same keys
get_or-tally first low k [] cnt h = omega arith
get_or-tally first low k (v ∷ vs) cnt (hv, hs) = ground (
  arith,
  get_or-bump cnt (v - low + first) (k + first) hv,
  get_or-tally first low k vs (bump cnt (v - low + first))
      (rw (length-bump cnt (v - low + first)) hs),
)

pub tally-before :
    (first low k : ℕ) (vs cnt : List ℕ)
    → k < first
    → All (λ v. v - low + first < length cnt) vs
    → get_or (tally first low vs cnt) k 0 ≡ get_or cnt k 0
unfolding tally
tally-before first low k [] cnt less h = refl
tally-before first low k (v ∷ vs) cnt less (hv, hs) = ground (
  arith,
  get_or-bump cnt (v - low + first) k hv,
  tally-before first low k vs (bump cnt (v - low + first)) less
      (rw (length-bump cnt (v - low + first)) hs),
)

abbrev pub zeros : ℕ → List ℕ
zeros n = replicate n 0

pub get_or-zeros : (n k : ℕ) → get_or (zeros n) k 0 ≡ 0
get_or-zeros zero k = refl
get_or-zeros (suc n) zero = refl
get_or-zeros (suc n) (suc k) = get_or-zeros n k

pub length-zeros : (n : ℕ) → length (zeros n) ≡ n
length-zeros zero = refl
length-zeros (suc n) = ap suc (length-zeros n)

-- The prefix sums of the counts of `vs` are the numbers of smaller values.
pub prefix_loop-below :
    (vs : List ℕ) (left i : ℕ) (cnt : List ℕ)
    → suc i + left ≡ length cnt
    → ((k : ℕ) → k < suc i → get_or cnt k 0 ≡ below k vs)
    → ((k : ℕ) → i ≤ k → suc k < length cnt → get_or cnt (suc k) 0 ≡ same k vs)
    → (k : ℕ) → k < length cnt
    → get_or (prefix_loop left (suc i) cnt) k 0 ≡ below k vs
unfolding prefix_loop
prefix_loop-below vs zero i cnt size done to_do k h = done k (omega (arith, size, h))
prefix_loop-below vs (suc left) i cnt size done to_do k h =
    let next = set cnt (suc i) (get_or cnt (suc i) 0 + get_or cnt i 0) in
    let size' : length next ≡ length cnt = length-set cnt (suc i) _ in
    let here : suc i < length cnt = omega (arith, size) in
    let back : suc i - 1 ≡ i = omega arith in
    rw (prefix_loop, back)
      (prefix_loop-below vs left (suc i) next (omega (arith, size, size'))
        (λ m less. ground (
          arith,
          get_or-set cnt (suc i) m (get_or cnt (suc i) 0 + get_or cnt i 0) here,
          done m,
          done i (omega arith),
          to_do i (omega arith) here,
          below-suc i vs,
        ))
        (λ m later inside. ground (
          arith,
          get_or-set cnt (suc i) (suc m) (get_or cnt (suc i) 0 + get_or cnt i 0) here,
          to_do m (omega (arith, later)) (omega (arith, inside, size')),
        ))
        k (omega (arith, size', h)))

-- The least and the greatest value.
min_of-le : (vs : List ℕ) (m : ℕ) → min_of vs m ≤ m
unfolding min_of
min_of-le [] m = omega arith
min_of-le (v ∷ vs) m = omega (arith, min_of-le vs (min m v))

max_of-le : (vs : List ℕ) (m : ℕ) → m ≤ max_of vs m
unfolding max_of
max_of-le [] m = omega arith
max_of-le (v ∷ vs) m = omega (arith, max_of-le vs (max m v))

pub min_of-All : (vs : List ℕ) (m : ℕ) → All (λ v. min_of vs m ≤ v) vs
unfolding min_of
min_of-All [] m = tt
min_of-All (v ∷ vs) m = (omega (arith, min_of-le vs (min m v)), min_of-All vs (min m v))

pub max_of-All : (vs : List ℕ) (m : ℕ) → All (λ v. v ≤ max_of vs m) vs
unfolding max_of
max_of-All [] m = tt
max_of-All (v ∷ vs) m = (omega (arith, max_of-le vs (max m v)), max_of-All vs (max m v))

pub min-le-max : (vs : List ℕ) → 0 < length vs → min_of vs t_max ≤ max_of vs t_min
min-le-max [] present = absurd (omega (arith, present))
min-le-max (v ∷ vs) present =
    omega (arith, (min_of-All (v ∷ vs) t_max).0, (max_of-All (v ∷ vs) t_min).0)

-- Where nothing overflows, the range is what it should be.
pub range_of-some :
    (low high : ℕ)
    → low ≤ high
    → high + 1 < low + 2 ^ 63
    → range_of low high ≡ some (high - low + 1)
unfolding range_of
range_of-some low high h fits = ground (arith, h, fits)

pub length-prefix_loop : (left i : ℕ) (cnt : List ℕ) → length (prefix_loop left i cnt) ≡ length cnt
unfolding prefix_loop
length-prefix_loop zero i cnt = refl
length-prefix_loop (suc left) i cnt =
    length-prefix_loop left (suc i) (set cnt i (get_or cnt i 0 + get_or cnt (i - 1) 0))
    ∙ length-set cnt i (get_or cnt i 0 + get_or cnt (i - 1) 0)
