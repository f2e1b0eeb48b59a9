-- ===== src/Qspinlock/Progress/Linking.antt =====
-- A move keeps each thread of the queue linked behind the one before it, or about to be.
use mytests.Base.{ℕ, ◌+◌, ◌≡◌, ◌≢◌, ◌⊎◌, inl, inr, refl, sym, ◌∙◌, arith, true, some}
use mathlib.Core.Path.{subst}
use mathlib.Core.Logic.{if_pos, if_neg}
use mytests.Qspinlock.Thread.{Mem, Pc, update, link}
use mytests.Qspinlock.Move.{Move}
use mytests.Qspinlock.Invariant.Defs.{queued, Queue, Inv}
use mytests.Qspinlock.Invariant.Owners.{Mover, after_move, nobody}
use mytests.Qspinlock.Invariant.Places.{next_queue}
use mytests.Qspinlock.Progress.Defs.{Alive}

module _ {n : ℕ} {m : Mem} {pc : ℕ → Pc} {q : Queue} (inv : Inv m pc q n) (alive : Alive m pc q)
    (me : ℕ) where
  open alive use {linking}
  open inv use {range, unique, behind, empty, last, locals}

  link_none :
      {p p' : Pc} {m' : Mem} (mv : Move me m p m' p')
      → Mover inv me p
      → (i j : ℕ) → me ≢ i
      → me ≢ j
      → queued (pc i) ≡ true
      → queued (pc j) ≡ true
      → (next_queue mv q).place j ≡ (next_queue mv q).place i + 1
      → (pc j ≡ link i) ⊎ (m'.next i ≡ some j)
  link_none (Move.stay p) f i j ni nj o w e = linking i j o w e
  link_none (Move.link_node p) f i j ni nj o w e = elim (linking i j o w e) [
    | inl k ↦ inl k
    | inr k ↦ inr (ground (arith, k, unique me j))
  ]
  link_none mv f i j ni nj o w e = elim (linking i j o w (ground (arith, e))) [
    | inl k ↦ inl k
    | inr k ↦ inr (ground (arith, k))
  ]

  link_from_me :
      {p p' : Pc} {m' : Mem} (mv : Move me m p m' p')
      → Mover inv me p
      → (j : ℕ) → me ≢ j
      → queued p' ≡ true
      → queued (pc j) ≡ true
      → (next_queue mv q).place j ≡ (next_queue mv q).place me + 1
      → (pc j ≡ link me) ⊎ (m'.next me ≡ some j)
  link_from_me (Move.stay p) f j nj o w e = linking me j (ground (arith, o)) w e
  link_from_me (Move.publish_first z) f j nj o w e = absurd (ground (arith, range j))
  link_from_me (Move.publish_behind x lt l) f j nj o w e = absurd (ground (arith, range j))
  link_from_me mv f j nj o w e = elim (linking me j (ground (arith, o)) w (ground (arith, e, o))) [
    | inl k ↦ inl k
    | inr k ↦ inr (ground (arith, k, o))
  ]

  link_to_me :
      {p p' : Pc} {m' : Mem} (mv : Move me m p m' p')
      → Mover inv me p
      → (i : ℕ) → me ≢ i
      → queued p' ≡ true
      → queued (pc i) ≡ true
      → (next_queue mv q).place me ≡ (next_queue mv q).place i + 1
      → (p' ≡ link i) ⊎ (m'.next i ≡ some me)
  link_to_me (Move.stay p) f i ni o w e = elim (linking i me w (ground (arith, o)) e) [
    | inl k ↦ inl (sym f.here ∙ k)
    | inr k ↦ inr k
  ]
  link_to_me (Move.publish_first z) f i ni o w e = absurd (ground (arith, nobody inv me z i))
  link_to_me (Move.publish_behind x lt l) f i ni o w e =
      let b = last (omega arith) in
      inl (ground (arith, b.inside, b.tail_code, b.place_last, unique i b.who))
  link_to_me (Move.link_node x) f i ni o w e = elim (linking i me w (ground arith) e) [
    | inl k ↦ inr (ground (arith, k))
    | inr k ↦ inr (ground (arith, k))
  ]
  link_to_me mv f i ni o w e = elim (linking i me w (ground (arith, o)) (ground (arith, e, o))) [
    | inl k ↦ absurd (ground (arith, k))
    | inr k ↦ inr (ground (arith, k, o))
  ]

  same_place : (q' : Queue) (i j : ℕ) → me ≡ i → me ≡ j → q'.place j ≡ q'.place i + 1 → ⊥
  same_place q' i j ei ej e = ground (arith, ei, ej, e)

  pub Move-linking :
      {p p' : Pc} {m' : Mem} (mv : Move me m p m' p')
      → Mover inv me p
      → (i j : ℕ) → queued (update pc me p' i) ≡ true
      → queued (update pc me p' j) ≡ true
      → (next_queue mv q).place j ≡ (next_queue mv q).place i + 1
      → (update pc me p' j ≡ link i) ⊎ (m'.next i ≡ some j)
  Move-linking {p'} {m'} mv f i j o w e = elim (after_move queued pc me p' i o) [
    | inl (ei, a) ↦ elim (after_move queued pc me p' j w) [
      | inl (ej, b) ↦ absurd (same_place (next_queue mv q) i j ei ej e)
      | inr (nj, b) ↦
          subst (λ k. (update pc me p' j ≡ link k) ⊎ (m'.next k ≡ some j)) ei
            (rw (if_neg _ nj) (link_from_me mv f j nj a b (rw (← ei) at e)))
    ]
    | inr (ni, a) ↦ elim (after_move queued pc me p' j w) [
      | inl (ej, b) ↦
          subst (λ k. (update pc me p' k ≡ link i) ⊎ (m'.next i ≡ some k)) ej
            (rw (if_pos _ refl) (link_to_me mv f i ni b a (rw (← ej) at e)))
      | inr (nj, b) ↦ rw (if_neg _ nj) (link_none mv f i j ni nj a b e)
    ]
  ]
