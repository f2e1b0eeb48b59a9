-- ===== src/Counting/Scans.antt =====
-- The loops of cpp/mode-range.cc that look for the mode.
use mytests.Base.{ℕ, zero, suc, ◌+◌, ◌≤◌, ◌<◌, ◌≡◌, refl, ap, ◌∙◌, arith, ◌⊎◌, inl, inr, ◌&&◌, ◌||◌}
use mytests.Base.{List, [], ◌∷◌, ltb, ◌==◌, get_or, Bool-cases, dec_lt}
use mytests.Counting.Defs.{Best, consider, scan_counts, scan_map}

-- The map has this value with this count.
abbrev pub Entry : ℕ → ℕ → List (ℕ × ℕ) → Type 0
Entry v c [] = ⊥
Entry v c ((w, d) ∷ entries) = ((v ≡ w) × (c ≡ d)) ⊎ Entry v c entries

-- Not less often, and the smaller of two values that are as often.
abbrev pub Beats : Best → ℕ → ℕ → Type 0
Beats b v c = (c < b.count) ⊎ ((c ≡ b.count) × (b.mode ≤ v))

consider-new : (v c : ℕ) (b : Best) → Beats (consider v c b) v c
unfolding consider
consider-new v c b = elim (Bool-cases (ltb b.count c || (c == b.count && ltb v b.mode))) [
  | inl e ↦ rw (e) (inr (refl, omega arith))
  | inr e ↦ rw (e) (ground (arith, e))
]

consider-old : (v c : ℕ) (b : Best) → Beats (consider v c b) b.mode b.count
unfolding consider
consider-old v c b = elim (Bool-cases (ltb b.count c || (c == b.count && ltb v b.mode))) [
  | inl e ↦ rw (e) (ground (arith, e))
  | inr e ↦ rw (e) (inr (refl, omega arith))
]

consider-source :
    (v c : ℕ) (b : Best)
    → (consider v c b ≡ b) ⊎ (((consider v c b).mode ≡ v) × ((consider v c b).count ≡ c))
unfolding consider
consider-source v c b = elim (Bool-cases (ltb b.count c || (c == b.count && ltb v b.mode))) [
  | inl e ↦ rw (e) (inr (refl, refl))
  | inr e ↦ rw (e) (inl refl)
]

Beats-through : (b d : Best) (v c : ℕ) → Beats b d.mode d.count → Beats d v c → Beats b v c
Beats-through b d v c h k = ground (arith, h, k)

-- The result is an entry of the map or what the loop started with, and it beats both.
pub record Found (entries : List (ℕ × ℕ)) (b r : Best) : Type 0 where
  pub source : (r ≡ b) ⊎ Entry r.mode r.count entries
  pub old : Beats r b.mode b.count
  pub all : (v c : ℕ) → Entry v c entries → Beats r v c

pub scan_map-Found : (entries : List (ℕ × ℕ)) (b : Best) → Found entries b (scan_map entries b)
unfolding scan_map
scan_map-Found [] b = record {
  source = inl refl;
  old = inr (refl, omega arith);
  all = λ v c m. absurd m;
}
scan_map-Found ((v, c) ∷ entries) b =
    let ih = scan_map-Found entries (consider v c b) in
    let r = scan_map entries (consider v c b) in
    record {
      source = elim ih.source [
        | inr m ↦ inr (inr m)
        | inl e ↦ elim (consider-source v c b) [
          | inl same_b ↦ inl (e ∙ same_b)
          | inr (ev, ec) ↦
              inr (inl (ap (λ (t : Best). t.mode) e ∙ ev, ap (λ (t : Best). t.count) e ∙ ec))
        ]
      ];
      old = Beats-through r (consider v c b) b.mode b.count ih.old (consider-old v c b);
      all = λ w d m. elim m [
        | inr later ↦ ih.all w d later
        | inl (ew, ed) ↦
            rw (ew, ed) (Beats-through r (consider v c b) v c ih.old (consider-new v c b))
      ];
    }

-- The walk over the counts is one over the entries that they stand for.
unfoldable pub entries_of : ℕ → List ℕ → ℕ → ℕ → List (ℕ × ℕ)
entries_of low counts zero i = []
entries_of low counts (suc left) i =
    (low + i, get_or counts i 0) ∷ entries_of low counts left (suc i)

pub scan_counts-scan_map :
    (low : ℕ) (counts : List ℕ) (left i : ℕ) (b : Best)
    → scan_counts low counts left i b ≡ scan_map (entries_of low counts left i) b
unfolding scan_counts scan_map entries_of
scan_counts-scan_map low counts zero i b = refl
scan_counts-scan_map low counts (suc left) i b =
    scan_counts-scan_map low counts left (suc i) (consider (low + i) (get_or counts i 0) b)

pub entries_of_sound :
    (low : ℕ) (counts : List ℕ) (left i v c : ℕ)
    → Entry v c (entries_of low counts left i)
    → (k : ℕ) × (v ≡ low + k) × (c ≡ get_or counts k 0)
unfolding entries_of
entries_of_sound low counts zero i v c m = absurd m
entries_of_sound low counts (suc left) i v c (inl (ev, ec)) = (i, ev, ec)
entries_of_sound low counts (suc left) i v c (inr m) =
    entries_of_sound low counts left (suc i) v c m

pub entries_of_complete :
    (low : ℕ) (counts : List ℕ) (left i k : ℕ)
    → i ≤ k
    → k < i + left
    → Entry (low + k) (get_or counts k 0) (entries_of low counts left i)
unfolding entries_of
entries_of_complete low counts zero i k h less = absurd (omega (arith, h, less))
entries_of_complete low counts (suc left) i k h less = elim (dec_lt i k) [
  | yes later ↦ inr (entries_of_complete low counts left (suc i) k later (omega (arith, less)))
  | no here ↦
      let is_i : k ≡ i = omega (arith, h, here) in
      inl (ap (λ (t : ℕ). low + t) is_i, ap (λ (t : ℕ). get_or counts t 0) is_i)
]
