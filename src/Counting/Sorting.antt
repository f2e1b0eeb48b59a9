-- ===== src/Counting/Sorting.antt =====
-- count_sort of cpp/sort-range.cc puts each index at its place of the stable order.
use mytests.Base.{ℕ, zero, suc, ◌+◌, ◌-◌, ◌≤◌, ◌<◌, ◌^◌, ◌≡◌, ◌≢◌, some, refl, ap, sym, ◌∙◌, arith}
use mytests.Base.{
  List, [], ◌∷◌, get_or, set, take, length, length-set, get_or-set, All, dec_lt, All-get, All-map,
  All-both,
}
use mathlib.Core.Path.{ap₂}
use mytests.Counting.Defs.{
  t_max, t_min, min_of, max_of, bump, tally, prefix_loop, place_loop, count_sort,
}
use mytests.Counting.Ranks.{
  below, same, below-zero, same-nil, rank, same-take-suc, rank-lt-length, rank-apart, Before,
  rank-Before,
}
use mytests.Counting.Tally.{
  length-bump, get_or-bump, keys, length-keys, get_or-keys, take-keys, below-keys, same-keys,
  length-tally, get_or-tally, tally-before, zeros, get_or-zeros, length-zeros, prefix_loop-below,
  min_of-All, max_of-All, length-prefix_loop, min-le-max, range_of-some,
}

-- A new entry does not move those of other places.
set_other :
    (xs : List ℕ) (i k v : ℕ) → i < length xs → i ≢ k → get_or (set xs i v) k 0 ≡ get_or xs k 0
set_other xs i k v h apart = ground (arith, get_or-set xs i k v h, apart)

at_key :
    (ks : List ℕ) (i slot : ℕ)
    → get_or ks i 0 ≡ slot
    → below slot ks + same slot (take i ks) ≡ rank ks i
unfolding rank
at_key ks i slot e = rw e refl

-- Each count is the next place of its value, and the places of the values before `i` are filled.
place_loop-rank :
    (low : ℕ) (array : List ℕ) (left i : ℕ) (cnt idx : List ℕ)
    → i + left ≡ length array
    → length idx ≡ length array
    → ((k : ℕ) → k < length array → get_or array k 0 - low < length cnt)
    → ((k : ℕ)
        → k < length cnt
        → get_or cnt k 0 ≡ below k (keys low array) + same k (take i (keys low array)))
    → ((j : ℕ) → j < i → get_or idx (rank (keys low array) j) 0 ≡ j)
    → (j : ℕ) → j < length array
    → get_or (place_loop low array left i cnt idx) (rank (keys low array) j) 0 ≡ j
unfolding place_loop
place_loop-rank low array zero i cnt idx size same_size slots counts done j h =
    done j (omega (arith, size, h))
place_loop-rank low array (suc left) i cnt idx size same_size slots counts done j h =
    let ks = keys low array in
    let slot = get_or array i 0 - low in
    let p = get_or cnt slot 0 in
    let inside : i < length array = omega (arith, size) in
    let in_keys : i < length ks = omega (arith, inside, length-keys low array) in
    let key : get_or ks i 0 ≡ slot = get_or-keys low array i in
    let place : p ≡ rank ks i = counts slot (slots i inside) ∙ at_key ks i slot key in
    let fits : p < length idx =
      omega (arith, place, rank-lt-length ks i in_keys, length-keys low array, same_size) in
    place_loop-rank low array left (suc i) (bump cnt slot) (set idx p i) (omega (arith, size))
      (length-set idx p i ∙ same_size) (λ k less. omega (arith, slots k less, length-bump cnt slot))
      (λ k less.
        let less' : k < length cnt = omega (arith, less, length-bump cnt slot) in
        ground (
          arith,
          get_or-bump cnt slot k (slots i inside),
          counts k less',
          same-take-suc k i ks in_keys,
          key,
        ))
      (λ m less. elim (dec_lt m i) [
        | yes earlier ↦
            set_other idx p (rank ks m) i fits
              (λ e. rank-apart ks m i earlier in_keys (sym e ∙ place))
            ∙ done m earlier
        | no late ↦
            let is_i : m ≡ i = omega (arith, less, late) in
            ground (arith, get_or-set idx p (rank ks i) i fits, place, is_i)
      ])
      j h

rank-keys :
    (low : ℕ) (vs : List ℕ) (i : ℕ)
    → All (λ v. low ≤ v) vs
    → i < length vs
    → rank (keys low vs) i ≡ rank vs i
unfolding rank
rank-keys low vs i h less =
    let present = All-get (λ v. low ≤ v) vs i 0 h less in
    rw (get_or-keys low vs i, take-keys low i vs)
      (ap₂ (λ (a b : ℕ). a + b) (below-keys low (get_or vs i 0) vs present h)
        (same-keys low (get_or vs i 0) (take i vs) present (All-take (λ v. low ≤ v) i vs h)))
  where
    All-take : (P : ℕ → Type 0) (i : ℕ) (vs : List ℕ) → All P vs → All P (take i vs)
    All-take P zero vs h = tt
    All-take P (suc i) [] h = tt
    All-take P (suc i) (v ∷ vs) (p, ps) = (p, All-take P i vs ps)

-- The parts of count_sort.
abbrev low_of : List ℕ → ℕ
low_of array = min_of array t_max

abbrev size_of : List ℕ → ℕ
size_of array = max_of array t_min - low_of array + 1

abbrev counts_of : List ℕ → List ℕ
counts_of array = tally 1 (low_of array) array (zeros (suc (size_of array)))

abbrev sorted_of : (array idx : List ℕ) → List ℕ
sorted_of array idx =
    let sums = prefix_loop (size_of array) 1 (counts_of array) in
    place_loop (low_of array) array (length idx) 0 sums idx

count_sort-some :
    (array idx : List ℕ)
    → 0 < length array
    → max_of array t_min + 1 < min_of array t_max + 2 ^ 63
    → count_sort array idx ≡ some (sorted_of array idx)
unfolding count_sort
count_sort-some array idx some_values fits =
    rw (range_of-some (low_of array) (max_of array t_min) (min-le-max array some_values) fits) refl

slots_fit :
    (array : List ℕ) → All (λ v. v - low_of array + 1 < length (zeros (suc (size_of array)))) array
slots_fit array =
    All-both (λ v. low_of array ≤ v) (λ v. v ≤ max_of array t_min) _ array
      (λ v p q. omega (arith, p, q, length-zeros (suc (size_of array)))) (min_of-All array t_max)
      (max_of-All array t_min)

length-counts : (array : List ℕ) → length (counts_of array) ≡ suc (size_of array)
length-counts array =
    let range = size_of array in
    length-tally 1 (low_of array) array (zeros (suc range)) ∙ length-zeros (suc range)

counts-below :
    (array : List ℕ) (k : ℕ)
    → k < length (counts_of array)
    → get_or (prefix_loop (size_of array) 1 (counts_of array)) k 0
      ≡ below k (keys (low_of array) array)
counts-below array =
    let low = low_of array in
    let range = size_of array in
    prefix_loop-below (keys low array) range 0 (counts_of array)
      (omega (arith, length-counts array))
      (λ k less. ground (
        arith,
        tally-before 1 low k array (zeros (suc range)) less (slots_fit array),
        get_or-zeros (suc range) k,
        below-zero (keys low array),
      ))
      (λ k _ _.
        let next : k + 1 ≡ suc k = omega arith in
        let counted = get_or-tally 1 low k array (zeros (suc range)) (slots_fit array) in
        rw next at counted
        ∙ ap (λ (t : ℕ). t + same k (keys low array)) (get_or-zeros (suc range) (suc k))
        ∙ omega arith)

-- When max - min + 1 does not overflow a `long`, count_sort runs through, and puts each index of the array into the slot of its rank, the number of the smaller
-- values and of the equal ones before it: within the array, and in the stable order of the values.
pub count_sort-rank :
    (array idx : List ℕ) (i j : ℕ)
    → length idx ≡ length array
    → max_of array t_min + 1 < min_of array t_max + 2 ^ 63
    → i < length array
    → j < length array
    → (sorted : List ℕ) × (count_sort array idx ≡ some sorted)
      × (get_or sorted (rank array i) 0 ≡ i)
      × (rank array i < length array)
      × (Before array j i → rank array j < rank array i)
count_sort-rank array idx i j same_size fits h hj =
    let low = low_of array in
    let ks = keys low array in
    let sums = prefix_loop (size_of array) 1 (counts_of array) in
    let sums_size : length sums ≡ length (counts_of array) =
      length-prefix_loop (size_of array) 1 (counts_of array) in
    let slots : All (λ v. v - low < length sums) array =
      All-map _ _ array
        (λ v p.
          omega (arith, p, sums_size, length-counts array, length-zeros (suc (size_of array))))
        (slots_fit array) in
    let placed =
      place_loop-rank low array (length idx) 0 sums idx (omega (arith, same_size)) same_size
        (λ k less. All-get (λ v. v - low < length sums) array k 0 slots less)
        (λ k less.
          let summed = counts-below array k (omega (arith, less, sums_size)) in
          omega (arith, summed, same-nil k))
        (λ m none. absurd (omega (arith, none))) i h in
    (
      sorted_of array idx,
      count_sort-some array idx (omega (arith, h)) fits,
      rw (sym (rank-keys low array i (min_of-All array t_max) h)) placed,
      rank-lt-length array i h,
      rank-Before array j i hj h,
    )
