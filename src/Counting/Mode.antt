-- ===== src/Counting/Mode.antt =====
-- stl_mode and count_mode of cpp/mode-range.cc find the same value.
use mytests.Base.{ℕ, ◌+◌, ◌-◌, ◌≤◌, ◌<◌, ◌^◌, ◌≡◌, some, refl, ap, sym, ◌∙◌, arith, inl, inr}
use mytests.Base.{List, [], ◌∷◌, ◌==◌, get_or, length, All, All-both, Bool-cases, ==_iff, dec_lt}
use mathlib.Core.Path.{subst}
use mytests.Counting.Defs.{
  t_max, t_min, min_of, max_of, tally, Best, no_mode, scan_counts, count_mode, scan_map,
}
use mytests.Counting.Ranks.{same}
use mytests.Counting.Tally.{
  same-keys, get_or-tally, zeros, get_or-zeros, length-zeros, min_of-All, max_of-All, min-le-max,
  range_of-some,
}
use mytests.Counting.Scans.{
  Entry, Beats, Found, scan_map-Found, entries_of, scan_counts-scan_map, entries_of_sound,
  entries_of_complete,
}

-- The entries are the values of the array with their numbers.
pub record Counts (array : List ℕ) (entries : List (ℕ × ℕ)) : Type 0 where
  pub sound : (v c : ℕ) → Entry v c entries → c ≡ same v array
  pub complete : (v : ℕ) → 0 < same v array → Entry v (same v array) entries

-- The least of the values that are in the array most often, and how often; 0 and 0 for an empty array.
pub record IsMode (array : List ℕ) (b : Best) : Type 0 where
  pub counted : same b.mode array ≡ b.count
  pub most : (v : ℕ) → same v array ≤ b.count
  pub least : (v : ℕ) → same v array ≡ b.count → b.mode ≤ v

-- What beats the start of the loop and all entries beats every value.
Beats-value :
    (array : List ℕ) (entries : List (ℕ × ℕ)) (r : Best) (v : ℕ)
    → Counts array entries
    → Found entries no_mode r
    → Beats r v (same v array)
Beats-value array entries r v k found = elim (dec_lt 0 (same v array)) [
  | yes present ↦ found.all v (same v array) (k.complete v present)
  | no none ↦ ground (arith, none, found.old)
]

pub scan_map-IsMode :
    (array : List ℕ) (entries : List (ℕ × ℕ))
    → Counts array entries
    → IsMode array (scan_map entries no_mode)
scan_map-IsMode array entries k =
    let r = scan_map entries no_mode in
    let found = scan_map-Found entries no_mode in
    record {
      counted = elim found.source [
        | inr m ↦ sym (k.sound r.mode r.count m)
        | inl e ↦
            let none : r.count ≡ 0 = ap (λ (b : Best). b.count) e in
            ground (arith, none, Beats-value array entries r r.mode k found)
      ];
      most = λ v. ground (arith, Beats-value array entries r v k found);
      least = λ v e. ground (arith, e, Beats-value array entries r v k found);
    }

-- There is one such value.
pub IsMode-unique : (array : List ℕ) (a b : Best) → IsMode array a → IsMode array b → a ≡ b
IsMode-unique array a b ha hb =
    let counts : a.count ≡ b.count =
      omega (arith, ha.counted, hb.counted, ha.most b.mode, hb.most a.mode) in
    let modes : a.mode ≡ b.mode =
      omega
        (arith, ha.least b.mode (hb.counted ∙ sym counts), hb.least a.mode (ha.counted ∙ counts)) in
    λ i. record { mode = modes i; count = counts i }

same-All : (P : ℕ → Type 0) (v : ℕ) (vs : List ℕ) → All P vs → 0 < same v vs → P v
unfolding same
same-All P v [] h pos = absurd (omega arith)
same-All P v (w ∷ vs) (hw, hs) pos = elim (Bool-cases (w == v)) [
  | inl e ↦ subst P ((==_iff w v).0 e) hw
  | inr e ↦ same-All P v vs hs (ground (arith, e, pos))
]

-- The parts of count_mode, where nothing overflows.
abbrev low_of : List ℕ → ℕ
low_of array = min_of array t_max

abbrev size_of : List ℕ → ℕ
size_of array = max_of array t_min - low_of array + 1

abbrev mode_of : List ℕ → Best
mode_of array =
    let counts = tally 0 (low_of array) array (zeros (size_of array)) in
    scan_counts (low_of array) counts (size_of array) 0 no_mode

mode_of-IsMode : (array : List ℕ) → IsMode array (mode_of array)
mode_of-IsMode array =
    let low = min_of array t_max in
    let range = max_of array t_min - low + 1 in
    let counts = tally 0 low array (zeros range) in
    let least = min_of-All array t_max in
    let greatest = max_of-All array t_min in
    let fit : All (λ v. v - low + 0 < length (zeros range)) array =
      All-both (λ v. low ≤ v) (λ v. v ≤ max_of array t_min) _ array
        (λ v p q. omega (arith, p, q, length-zeros range)) least greatest in
    let counted : (k : ℕ) → get_or counts k 0 ≡ same (low + k) array = λ k.
      let same_place : k + 0 ≡ k = omega arith in
      let distance : low + k - low ≡ k = omega arith in
      let tallied = get_or-tally 0 low k array (zeros range) fit in
      let keyed = same-keys low (low + k) array (omega arith) least in
      omega (arith, rw same_place at tallied, rw distance at keyed, get_or-zeros range k) in
    rw (scan_counts-scan_map low counts range 0 no_mode) (
      scan_map-IsMode array (entries_of low counts range 0) (record {
        sound = λ v c m.
            let (k, ev, ec) = entries_of_sound low counts range 0 v c m in
            ec ∙ counted k ∙ ap (λ (t : ℕ). same t array) (sym ev);
        complete = λ v present.
            let from_low = same-All (λ w. low ≤ w) v array least present in
            let to_high = same-All (λ w. w ≤ max_of array t_min) v array greatest present in
            let back : low + (v - low) ≡ v = omega (arith, from_low) in
            let entry =
              entries_of_complete low counts range 0 (v - low) (omega arith)
                (omega (arith, from_low, to_high)) in
            subst (λ (t : ℕ). Entry v t (entries_of low counts range 0))
              (counted (v - low) ∙ ap (λ (t : ℕ). same t array) back)
              (subst
                (λ (t : ℕ). Entry t (get_or counts (v - low) 0) (entries_of low counts range 0))
                back entry);
      }))

-- When the array is not empty and max - min + 1 does not overflow a `long`, count_mode runs through and
-- finds the mode.
pub count_mode-IsMode :
    (array : List ℕ)
    → 0 < length array
    → max_of array t_min + 1 < min_of array t_max + 2 ^ 63
    → (b : Best) × (count_mode array ≡ some b) × IsMode array b
unfolding count_mode
count_mode-IsMode array some_values fits = (
  mode_of array,
  rw (range_of-some (low_of array) (max_of array t_min) (min-le-max array some_values) fits) refl,
  mode_of-IsMode array,
)
