-- ===== src/Counting/Agreement.antt =====
-- The map of stl_mode of cpp/mode-range.cc counts the values, and the two functions agree.
use mytests.Base.{ℕ, suc, ◌+◌, ◌<◌, ◌^◌, ◌≡◌, some, refl, ap, sym, ◌∙◌, arith, inl, inr, ◌↔◌}
use mytests.Base.{List, [], ◌∷◌, ◌==◌, if◌then◌else◌, length, Bool-cases, ==_iff}
use mytests.Counting.Defs.{t_max, t_min, min_of, max_of, count_mode, add_value, value_map, stl_mode}
use mytests.Counting.Ranks.{same}
use mytests.Counting.Scans.{Entry}
use mytests.Counting.Mode.{Counts, IsMode, scan_map-IsMode, IsMode-unique, count_mode-IsMode}

-- What the entries of a value add up to.
unfoldable total : ℕ → List (ℕ × ℕ) → ℕ
total v [] = 0
total v ((w, c) ∷ entries) = let rest = total v entries in if w == v then c + rest else rest

-- Each value has one entry, which is not 0.
abbrev IsMap : List (ℕ × ℕ) → Type 0
IsMap [] = Unit
IsMap ((v, c) ∷ entries) = (0 < c) × (total v entries ≡ 0) × IsMap entries

total-add_value :
    (v w : ℕ) (entries : List (ℕ × ℕ))
    → total v (add_value w entries) ≡ (if w == v then suc (total v entries) else total v entries)
unfolding total add_value
total-add_value v w [] = ground arith
total-add_value v w ((u, c) ∷ entries) = elim (Bool-cases (u == w)) [
  | inl e ↦ rw (e, add_value, total) (ground (arith, e))
  | inr e ↦ rw (e, add_value, total) (ground (arith, e, total-add_value v w entries))
]

add_value-IsMap : (w : ℕ) (entries : List (ℕ × ℕ)) → IsMap entries → IsMap (add_value w entries)
unfolding add_value total
add_value-IsMap w [] h = (omega arith, refl, tt)
add_value-IsMap w ((u, c) ∷ entries) (pos, none, h) = elim (Bool-cases (u == w)) [
  | inl e ↦ rw (e, add_value) (omega (arith, pos), none, h)
  | inr e ↦
      rw (e, add_value)
        (pos, ground (arith, e, none, total-add_value u w entries), add_value-IsMap w entries h)
]

value_map-IsMap :
    (vs : List ℕ) (entries : List (ℕ × ℕ)) → IsMap entries → IsMap (value_map vs entries)
unfolding value_map
value_map-IsMap [] entries h = h
value_map-IsMap (w ∷ vs) entries h =
    value_map-IsMap vs (add_value w entries) (add_value-IsMap w entries h)

total-value_map :
    (v : ℕ) (vs : List ℕ) (entries : List (ℕ × ℕ))
    → total v (value_map vs entries) ≡ total v entries + same v vs
unfolding value_map same
total-value_map v [] entries = omega arith
total-value_map v (w ∷ vs) entries =
    ground (arith, total-value_map v vs (add_value w entries), total-add_value v w entries)

entry-total :
    (entries : List (ℕ × ℕ)) (v c : ℕ)
    → IsMap entries
    → Entry v c entries
    → (0 < c) × (c ≡ total v entries)
unfolding total
entry-total [] v c h m = absurd m
entry-total ((u, d) ∷ entries) v c (pos, none, h) (inl (ev, ec)) = ground (arith, ev, ec, pos, none)
entry-total ((u, d) ∷ entries) v c (pos, none, h) (inr m) =
    let (present, e) = entry-total entries v c h m in
    elim (Bool-cases (u == v)) [
      | inl f ↦
          let same_key : u ≡ v = (==_iff u v).0 f in
          absurd (omega (arith, present, e, rw same_key at none))
      | inr f ↦ (present, ground (arith, f, e))
    ]

total-entry :
    (entries : List (ℕ × ℕ)) (v c : ℕ)
    → IsMap entries
    → total v entries ≡ c
    → 0 < c
    → Entry v c entries
unfolding total
total-entry [] v c h e present = absurd (omega (arith, e, present))
total-entry ((u, d) ∷ entries) v c (pos, none, h) e present = elim (Bool-cases (u == v)) [
  | inl f ↦
      let same_key : u ≡ v = (==_iff u v).0 f in
      inl (sym same_key, ground (arith, e, f, rw same_key at none))
  | inr f ↦ inr (total-entry entries v c h (ground (arith, f, e)) present)
]

value_map-Counts : (array : List ℕ) → Counts array (value_map array [])
unfolding total
value_map-Counts array =
    let map = value_map-IsMap array [] tt in
    record {
      sound = λ v c m.
          omega (arith, (entry-total (value_map array []) v c map m).1, total-value_map v array []);
      complete = λ v present.
          let counted : total v (value_map array []) ≡ same v array =
            omega (arith, total-value_map v array []) in
          total-entry (value_map array []) v (same v array) map counted present;
    }

-- When the array is not empty and max - min + 1 does not overflow a `long`: whatever the order in which
-- the map is walked through, as long as the walk meets its entries and no others, both functions return the
-- least of the most frequent values, with its count.
pub stl_mode-count_mode :
    (order : List (ℕ × ℕ) → List (ℕ × ℕ)) (array : List ℕ)
    → 0 < length array
    → max_of array t_min + 1 < min_of array t_max + 2 ^ 63
    → ((entries : List (ℕ × ℕ)) (v c : ℕ) → Entry v c (order entries) ↔ Entry v c entries)
    → (count_mode array ≡ some (stl_mode order array)) × IsMode array (stl_mode order array)
unfolding stl_mode
stl_mode-count_mode order array some_values fits walks =
    let k = value_map-Counts array in
    let found = scan_map-IsMode array (order (value_map array [])) (record {
      sound = λ v c m. k.sound v c ((walks (value_map array []) v c).0 m);
      complete =
          λ v present. (walks (value_map array []) v (same v array)).1 (k.complete v present);
    }) in
    let (b, returned, counted) = count_mode-IsMode array some_values fits in
    (returned ∙ ap some (IsMode-unique array b (stl_mode order array) counted found), found)
