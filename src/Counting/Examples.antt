-- ===== src/Counting/Examples.antt =====
-- Runs of cpp/sort-range.cc and cpp/mode-range.cc.
use mytests.Base.{ℕ, ◌≡◌, ◌<◌, refl, arith, none, some, List, [], ◌∷◌, get_or}
use mytests.Counting.Defs.{t_min, t_max, min_of, max_of, count_sort, count_mode, stl_mode}
use mytests.Counting.Ranks.{rank, Before}
use mytests.Counting.Sorting.{count_sort-rank}
use mytests.Counting.Mode.{IsMode}
use mytests.Counting.Agreement.{stl_mode-count_mode}

abbrev sample : List ℕ
sample = 12 ∷ 10 ∷ 12 ∷ 11 ∷ 10 ∷ []

abbrev slots : List ℕ
slots = 0 ∷ 0 ∷ 0 ∷ 0 ∷ 0 ∷ []

sorted : count_sort sample slots ≡ some (1 ∷ 4 ∷ 3 ∷ 0 ∷ 2 ∷ [])
unfolding count_sort
sorted = refl

-- 10 and 12 are in the list twice.
found : count_mode sample ≡ some (record { mode = 10; count = 2 })
unfolding count_mode
found = refl

-- The range of the least and the greatest `long`, and that of an empty array, overflow.
whole_range : count_sort (t_min ∷ t_max ∷ []) (0 ∷ 0 ∷ []) ≡ none
unfolding count_sort
whole_range = refl

no_values : count_mode [] ≡ none
unfolding count_mode
no_values = refl

count_sort-rank_example :
    (places : List ℕ) × (count_sort sample slots ≡ some places)
    × (get_or places (rank sample 2) 0 ≡ 2)
    × (rank sample 2 < 5)
    × (Before sample 0 2 → rank sample 0 < rank sample 2)
unfolding min_of max_of
count_sort-rank_example =
    count_sort-rank sample slots 2 0 refl (omega arith) (omega arith) (omega arith)

stl_mode-count_mode_example :
    (count_mode sample ≡ some (stl_mode (λ entries. entries) sample))
    × IsMode sample (stl_mode (λ entries. entries) sample)
unfolding min_of max_of
stl_mode-count_mode_example =
    stl_mode-count_mode (λ entries. entries) sample (omega arith) (omega arith)
      (λ entries v c. ((λ m. m), (λ m. m)))
