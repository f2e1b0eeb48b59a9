-- ===== src/Pagemap/Reading.antt =====
-- The loop that reads an entry of the page map.
use mytests.Base.{
  ℕ, zero, suc, ◌+◌, ◌-◌, ◌*◌, ◌/◌, ◌%◌, ◌^◌, ◌≤◌, ◌<◌, ◌≡◌, ◌≢◌, refl, ap, ◌∙◌, arith,
}
use mytests.Base.{◌⊎◌, inl, inr}
use mytests.Base.{some, List, [], ◌∷◌, ◌++◌, drop, length}
use mathlib.Core.List.{append-nil}
use mytests.Base.Word.{u64}
use mytests.Base.Digits.{bit_and_low}
use mytests.Pagemap.Defs.{
  Pread, bytes, error, Pager, overwrite, number, filled, stuck, read_loop, read_data, entry_of,
  filled_entry, pagemap_get_entry, virt_to_phys_user,
}

Pread-cases :
    (p : Pread) → ((p ≡ error) ⊎ (p ≡ bytes [])) ⊎ ((b : ℕ) × (bs : List ℕ) × (p ≡ bytes (b ∷ bs)))
Pread-cases error = inl (inl refl)
Pread-cases (bytes []) = inl (inr refl)
Pread-cases (bytes (b ∷ bs)) = inr (b, bs, refl)

read_loop-fuel :
    (fuel : ℕ) (pread : Pager) (pos nread : ℕ) (dat : List ℕ)
    → 8 ≤ nread + fuel
    → read_loop fuel pread pos nread dat ≢ stuck
unfolding read_loop
read_loop-fuel zero pread pos nread dat h e = ground arith
read_loop-fuel (suc fuel) pread pos nread dat h e =
    elim (Pread-cases (pread (8 - nread) (pos + nread))) [
      | inl (inl q) ↦ ground (arith, q)
      | inl (inr q) ↦ ground (arith, q)
      | inr (b, bs, q) ↦ ground (
        arith,
        q,
        read_loop-fuel fuel pread pos (nread + suc (length bs)) (overwrite dat (b ∷ bs))
            (omega arith),
      )
    ]

-- Whatever `pread` does, the loop of pagemap_get_entry ends within eight rounds.
pub read_data-fuel :
    (pread : Pager) (page_size vaddr : ℕ) (dat : List ℕ)
    → read_data pread page_size vaddr dat ≢ stuck
unfolding read_data
read_data-fuel pread page_size vaddr dat =
    read_loop-fuel 8 pread (vaddr / page_size * 8) 0 dat (omega arith)

drop-all : (xs : List ℕ) (n : ℕ) → length xs ≤ n → drop n xs ≡ []
drop-all [] zero h = refl
drop-all [] (suc n) h = refl
drop-all (x ∷ xs) zero h = absurd (omega arith)
drop-all (x ∷ xs) (suc n) h = drop-all xs n (omega arith)

-- A read of some bytes takes the loop on.
read_loop-bytes :
    (fuel : ℕ) (pread : Pager) (pos nread : ℕ) (dat bs : List ℕ)
    → nread < 8
    → pread (8 - nread) (pos + nread) ≡ bytes bs
    → 0 < length bs
    → read_loop (suc fuel) pread pos nread dat
      ≡ read_loop fuel pread pos (nread + length bs) (overwrite dat bs)
unfolding read_loop
read_loop-bytes fuel pread pos nread dat [] lt q h = absurd (omega arith)
read_loop-bytes fuel pread pos nread dat (b ∷ bs) lt q h = ground (arith, q)

read_loop-done :
    (fuel : ℕ) (pread : Pager) (pos nread : ℕ) (dat : List ℕ)
    → 8 ≤ nread
    → read_loop fuel pread pos nread dat ≡ filled dat
unfolding read_loop
read_loop-done zero pread pos nread dat h = ground arith
read_loop-done (suc fuel) pread pos nread dat h = ground arith

overwrite-all : (old bs : List ℕ) → length old ≤ length bs → overwrite old bs ≡ bs
unfolding overwrite
overwrite-all old bs h = rw (drop-all old (length bs) h) (append-nil bs)

module _ (pread : Pager) (page_size vaddr : ℕ) (dat : List ℕ) (whole : length dat ≡ 8) where
  read_data-whole :
      (bs : List ℕ)
      → pread 8 (vaddr / page_size * 8) ≡ bytes bs
      → length bs ≡ 8
      → read_data pread page_size vaddr dat ≡ filled bs
  unfolding read_data
  read_data-whole bs q e =
      let at_start : vaddr / page_size * 8 + 0 ≡ vaddr / page_size * 8 = omega arith in
      read_loop-bytes 7 pread _ 0 dat bs (omega arith) (ap (λ (t : ℕ). pread 8 t) at_start ∙ q)
        (omega (arith, e))
      ∙ read_loop-done 7 pread _ (0 + length bs) (overwrite dat bs) (omega (arith, e))
      ∙ ap filled (overwrite-all dat bs (omega (arith, e, whole)))

-- When `open` succeeds and `pread` gives the eight bytes at eight times the page's number,
-- virt_to_phys_user returns the number in their low 54 bits times the page size, plus the offset in
-- the page, in 64 bits.
pub virt_to_phys_user_lem :
    (pread : Pager) (page_size vaddr : ℕ) (dat bs : List ℕ)
    → length dat ≡ 8
    → pread 8 (vaddr / page_size * 8) ≡ bytes bs
    → length bs ≡ 8
    → virt_to_phys_user (some pread) page_size vaddr dat
      ≡ some (u64 (number bs % 2 ^ 54 * page_size + vaddr % page_size))
unfolding virt_to_phys_user pagemap_get_entry filled_entry entry_of
virt_to_phys_user_lem pread page_size vaddr dat bs whole q e =
    let r = read_data-whole pread page_size vaddr dat whole bs q e in
    ground (arith, r, bit_and_low 54 (number bs))

-- A read that is cut short is not continued behind its bytes: when `pread` gives the first bytes `xs`
-- of an entry and then the others, `ys`, the second read is written over the start of the variable.
pub read_data-short :
    (pread : Pager) (page_size vaddr : ℕ) (dat xs ys : List ℕ)
    → 0 < length xs
    → 0 < length ys
    → length xs + length ys ≡ 8
    → pread 8 (vaddr / page_size * 8) ≡ bytes xs
    → pread (length ys) (vaddr / page_size * 8 + length xs) ≡ bytes ys
    → read_data pread page_size vaddr dat
      ≡ filled (ys ++ drop (length ys) (xs ++ drop (length xs) dat))
unfolding read_data overwrite
read_data-short pread page_size vaddr dat xs ys hx hy e p q =
    let pos = vaddr / page_size * 8 in
    let at_start : pos + 0 ≡ pos = omega arith in
    let left : 8 - (0 + length xs) ≡ length ys = omega (arith, e) in
    read_loop-bytes 7 pread pos 0 dat xs (omega arith) (ap (λ (t : ℕ). pread 8 t) at_start ∙ p) hx
    ∙ read_loop-bytes 6 pread pos (0 + length xs) (overwrite dat xs) ys (omega (arith, e))
        (rw left (ap (λ (t : ℕ). pread (length ys) (pos + t)) (omega arith) ∙ q)) hy
    ∙ read_loop-done 6 pread pos (0 + length xs + length ys) _ (omega (arith, e))
