-- ===== src/Tail/Ring.antt =====
-- The ring of parse_newline holds the newest line starts.
use mytests.Base.{ℕ, zero, suc, ◌+◌, ◌-◌, ◌%◌, ◌≤◌, ◌<◌, ◌≡◌, ◌≢◌, refl, arith}
use mytests.Base.{
  List, [], ◌∷◌, ◌++◌, leb, ◌==◌, if◌then◌else◌, get_or, set, length, length-append, length-set,
  get_or-set,
}
use mytests.Tail.Defs.{Ring, parse_byte}

-- The slot that was written `d` starts before the slot `last`.
unfoldable pub back : ℕ → ℕ → ℕ → ℕ
back lines last d = if leb d last then last - d else last + lines - d

-- The ring after the line starts `ss`, in the order of the file.
pub record Holds (lines : ℕ) (ss : List ℕ) (r : Ring) : Type 0 where
  pub size : length r.newline_seeks ≡ lines
  pub some_start : 0 < length ss
  pub last_fits : r.newline_last < lines
  pub first_fits : r.newline_first < lines
  pub filling : length ss ≤ lines → (r.newline_first ≡ 0) × (r.newline_last ≡ length ss - 1)
  pub full : lines ≤ length ss → r.newline_first ≡ back lines r.newline_last (lines - 1)
  pub newest :
      (d : ℕ)
      → d < lines
      → d < length ss
      → get_or r.newline_seeks (back lines r.newline_last d) 0 ≡ get_or ss (length ss - 1 - d) 0

pub get_or-append :
    (xs : List ℕ) (v i : ℕ) → i < length xs → get_or (xs ++ (v ∷ [])) i 0 ≡ get_or xs i 0
get_or-append [] v i h = absurd (omega arith)
get_or-append (x ∷ xs) v zero h = refl
get_or-append (x ∷ xs) v (suc i) h = get_or-append xs v i (omega arith)

pub get_or-last : (xs : List ℕ) (v : ℕ) → get_or (xs ++ (v ∷ [])) (length xs) 0 ≡ v
get_or-last [] v = refl
get_or-last (x ∷ xs) v = get_or-last xs v

next_slot : (x lines : ℕ) → x < lines → (x + 1) % lines ≡ (if x + 1 == lines then 0 else x + 1)
next_slot x lines h = grind arith

module _ (lines at b : ℕ) (ss : List ℕ) (r : Ring) (h : Holds lines ss r)
    (newline : r.last_char ≡ b'\n') where
  after : Ring
  after = parse_byte lines at r b

  last_slot : after.newline_last ≡ (if r.newline_last + 1 == lines then 0 else r.newline_last + 1)
  unfolding after parse_byte
  last_slot = ground (arith, newline, next_slot r.newline_last lines h.last_fits)

  first_slot : after.newline_first ≡ (
      if leb lines (length ss)
      then (if r.newline_first + 1 == lines then 0 else r.newline_first + 1)
      else r.newline_first)
  unfolding after parse_byte back
  first_slot = ground (
    arith,
    newline,
    h.filling,
    h.full,
    h.some_start,
    h.last_fits,
    next_slot r.newline_last lines h.last_fits,
    next_slot r.newline_first lines h.first_fits,
  )

  seeks_after : after.newline_seeks ≡ set r.newline_seeks after.newline_last at
  unfolding after parse_byte
  seeks_after = ground (arith, newline)

  length_after : length (ss ++ (at ∷ [])) ≡ suc (length ss)
  length_after = omega (arith, length-append ss (at ∷ []))

  newest_after :
      (d : ℕ)
      → d < lines
      → d < suc (length ss)
      → get_or (set r.newline_seeks after.newline_last at) (back lines after.newline_last d) 0
        ≡ get_or (ss ++ (at ∷ [])) (length ss - d) 0
  unfolding back
  newest_after zero p q = ground (
    arith,
    h.size,
    h.last_fits,
    last_slot,
    get_or-set r.newline_seeks after.newline_last after.newline_last at,
    get_or-last ss at,
  )
  newest_after (suc d) p q = ground (
    arith,
    h.size,
    h.last_fits,
    last_slot,
    get_or-set r.newline_seeks after.newline_last (back lines after.newline_last (suc d)) at,
    get_or-append ss at (length ss - suc d),
    h.newest d,
  )

  -- A newline in front of a byte adds its offset.
  pub push-Holds : Holds lines (ss ++ (at ∷ [])) (parse_byte lines at r b)
  unfolding back after
  push-Holds = record {
    size = ground (arith, seeks_after, h.size, length-set r.newline_seeks after.newline_last at);
    some_start = omega (arith, length_after);
    last_fits = ground (arith, last_slot, h.last_fits);
    first_fits = ground (arith, first_slot, h.first_fits);
    filling = λ few. ground (arith, length_after, h.filling, last_slot, first_slot, h.some_start);
    full = λ many.
        ground (
          arith, length_after, h.filling, h.full, h.last_fits, last_slot, first_slot, h.some_start,
        );
    newest = λ d p q. ground (arith, length_after, seeks_after, newest_after d p);
  }

-- Any other byte changes no slot.
pub skip-Holds :
    (lines at b : ℕ) (ss : List ℕ) (r : Ring)
    → Holds lines ss r
    → r.last_char ≢ b'\n'
    → Holds lines ss (parse_byte lines at r b)
unfolding parse_byte
skip-Holds lines at b ss r h other = record {
  size = ground (arith, h.size);
  some_start = h.some_start;
  last_fits = ground (arith, h.last_fits);
  first_fits = ground (arith, h.first_fits);
  filling = λ few. ground (arith, h.filling few);
  full = λ many. ground (arith, h.full many);
  newest = λ d p q. ground (arith, h.newest d p q);
}
