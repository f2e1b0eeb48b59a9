-- ===== src/Counting/Defs.antt =====
-- count_sort of cpp/sort-range.cc; stl_mode and count_mode of cpp/mode-range.cc. A `long` v is kept as
-- v + 2 ^ 63, which changes neither the order of two values nor their difference.
use mytests.Base.{ℕ, zero, suc, ◌+◌, ◌-◌, ◌^◌, ◌&&◌, ◌||◌, Option, none, some}
use mytests.Base.Word.{u64}
use mathlib.Core.Option
use mytests.Base.{List, [], ◌∷◌, ltb, leb, ◌==◌, if◌then◌else◌, get_or, set, length, replicate}
use Prim.Native.Nat.{min, max}

-- The limits of a `long`.
abbrev pub t_max : ℕ
t_max = 2 ^ 64 - 1

abbrev pub t_min : ℕ
t_min = 0

unfoldable pub min_of : List ℕ → ℕ → ℕ
min_of [] m = m
min_of (v ∷ vs) m = min_of vs (min m v)

unfoldable pub max_of : List ℕ → ℕ → ℕ
max_of [] m = m
max_of (v ∷ vs) m = max_of vs (max m v)

-- `++cnt[i]`
unfoldable pub bump : List ℕ → ℕ → List ℕ
bump cnt i = set cnt i (suc (get_or cnt i 0))

-- `for (auto v : array) ++cnt[v - low + first];`
unfoldable pub tally : ℕ → ℕ → List ℕ → List ℕ → List ℕ
unfolding bump
tally first low [] cnt = cnt
tally first low (v ∷ vs) cnt = tally first low vs (bump cnt (v - low + first))

-- The prefix sums, with `left` rounds to go from `i` on.
unfoldable pub prefix_loop : ℕ → ℕ → List ℕ → List ℕ
prefix_loop zero i cnt = cnt
prefix_loop (suc left) i cnt =
    prefix_loop left (suc i) (set cnt i (get_or cnt i 0 + get_or cnt (i - 1) 0))

-- `idx[cnt[array[i] - low]++] = i`, with `left` rounds to go from `i` on.
unfoldable pub place_loop : ℕ → List ℕ → ℕ → ℕ → List ℕ → List ℕ → List ℕ
unfolding bump
place_loop low array zero i cnt idx = idx
place_loop low array (suc left) i cnt idx =
    let slot = get_or array i 0 - low in
    place_loop low array left (suc i) (bump cnt slot) (set idx (get_or cnt slot 0) i)

-- `max - min + 1` of two `long`s, and what a `size_t` makes of it; none where the difference or the sum
-- overflows, which the language leaves undefined.
unfoldable pub range_of : (low high : ℕ) → Option ℕ
range_of low high =
    if ltb (high + 1) (low + 2 ^ 63) && leb low (high + 2 ^ 63)
    then some (u64 (high + 1 + 2 ^ 64 - low))
    else none

unfoldable pub count_sort : List ℕ → List ℕ → Option (List ℕ)
unfolding min_of max_of range_of tally prefix_loop place_loop
count_sort array idx =
    let low = min_of array t_max in
    Option.map
      (λ value_range.
        let cnt = tally 1 low array (replicate (suc value_range) 0) in
        place_loop low array (length idx) 0 (prefix_loop value_range 1 cnt) idx)
      (range_of low (max_of array t_min))

-- `mode` and `count` of both functions.
pub record Best : Type 0 where
  pub mode : ℕ
  pub count : ℕ

-- A round of the loops that look for the mode.
unfoldable pub consider : ℕ → ℕ → Best → Best
consider this_value this_count b =
    if ltb b.count this_count || (this_count == b.count && ltb this_value b.mode)
    then record { mode = this_value; count = this_count }
    else b

abbrev pub no_mode : Best
no_mode = record { mode = t_min; count = 0 }

-- The loop over the counts, with `left` rounds to go from `i` on.
unfoldable pub scan_counts : ℕ → List ℕ → ℕ → ℕ → Best → Best
unfolding consider
scan_counts low value_counts zero i b = b
scan_counts low value_counts (suc left) i b =
    scan_counts low value_counts left (suc i) (consider (low + i) (get_or value_counts i 0) b)

unfoldable pub count_mode : List ℕ → Option Best
unfolding min_of max_of range_of tally scan_counts
count_mode array =
    let low = min_of array t_max in
    Option.map
      (λ value_range.
        scan_counts low (tally 0 low array (replicate value_range 0)) value_range 0 no_mode)
      (range_of low (max_of array t_min))

-- `++value_counts[value]` on the map, which starts a new key at 0.
unfoldable pub add_value : ℕ → List (ℕ × ℕ) → List (ℕ × ℕ)
add_value value [] = (value, 1) ∷ []
add_value value ((v, n) ∷ entries) =
    let rest = add_value value entries in if v == value then (v, suc n) ∷ entries else (v, n) ∷ rest

unfoldable pub value_map : List ℕ → List (ℕ × ℕ) → List (ℕ × ℕ)
unfolding add_value
value_map [] entries = entries
value_map (v ∷ vs) entries = value_map vs (add_value v entries)

unfoldable pub scan_map : List (ℕ × ℕ) → Best → Best
unfolding consider
scan_map [] b = b
scan_map ((value, count) ∷ entries) b = scan_map entries (consider value count b)

-- `order` is the order in which the map is walked through.
unfoldable pub stl_mode : (List (ℕ × ℕ) → List (ℕ × ℕ)) → List ℕ → Best
unfolding value_map scan_map
stl_mode order array = scan_map (order (value_map array [])) no_mode
