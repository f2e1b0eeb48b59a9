-- ===== src/Qspinlock/Invariant/Places.antt =====
-- A move keeps the places of the queue.
use mytests.Base.{ℕ, ◌+◌, ◌<◌, ◌≤◌, ◌≡◌, ◌≢◌, inl, inr, refl, sym, ◌∙◌, arith, true}
use mytests.Base.{Option}
use mytests.Qspinlock.Lock.{word}
use mytests.Qspinlock.Thread.{Mem, Pc, update}
use mytests.Qspinlock.Move.{Move, IsLast}
use mytests.Qspinlock.Invariant.Defs.{claims, queued, Queue, Behind, Inv}
use mytests.Qspinlock.Invariant.Owners.{guard, Mover, after_move, by_thread, claim_alone_lem}

-- The queue after a move: publishing takes the next place, and the head leaves when it claims the
-- lock with nobody behind it, or hands the head over.
abbrev pub next_queue : {me : ℕ} {m m' : Mem} {p p' : Pc} → Move me m p m' p' → Queue → Queue
next_queue {me} (Move.publish_first _) q = record {
  place = update q.place me q.fresh;
  head = q.head;
  fresh = q.fresh + 1;
}
next_queue {me} (Move.publish_behind _ _ _) q = record {
  place = update q.place me q.fresh;
  head = q.head;
  fresh = q.fresh + 1;
}
next_queue (Move.claim_win _ _ _) q = record { place = q.place; head = q.fresh; fresh = q.fresh }
next_queue (Move.hand_over _) q = record { place = q.place; head = q.head + 1; fresh = q.fresh }
next_queue _ q = q

module _ {n : ℕ} {m : Mem} {pc : ℕ → Pc} {q : Queue} (inv : Inv m pc q n) (me : ℕ) where
  open inv use {few, ordered, range, unique, behind, empty, last, linked, locals}

  -- Where the compare-exchange of the head wins, the head is alone in the queue.
  only_me :
      IsLast me m.lock
      → claims (pc me) ≡ true
      → (q.head + 1 ≡ q.fresh) × ((i : ℕ) → queued (pc i) ≡ true → me ≡ i)
  only_me e c =
      let l = last (omega arith) in
      let top : q.head + 1 ≡ q.fresh = ground (arith, behind me, l.place_last, l.tail_code) in
      (top, λ i o. ground (arith, behind me, range i, unique me i))

  pub only_winner :
      {p : Pc} (nx : Option ℕ) (val : ℕ)
      → p ≡ Pc.claim_cas nx val
      → Mover inv me p
      → word m.lock ≡ val
      → (q.head + 1 ≡ q.fresh) × ((i : ℕ) → queued (pc i) ≡ true → me ≡ i)
  only_winner nx val e f g = only_me (claim_alone_lem inv me nx val e f g).2 (ground arith)

  pub Move-range :
      {p p' : Pc} {m' : Mem} (mv : Move me m p m' p')
      → Mover inv me p
      → (i : ℕ) → queued (update pc me p' i) ≡ true
      → ((next_queue mv q).head ≤ (next_queue mv q).place i)
        × ((next_queue mv q).place i < (next_queue mv q).fresh)
  Move-range (Move.stay p) f i o = ground (arith, range i)
  Move-range (Move.claim_win nx val g) f i o = ground (arith, (only_winner nx val refl f g).1 i)
  Move-range (Move.hand_over nx) f i o = ground (arith, range i, unique me i, behind me)
  Move-range mv f i o = ground (arith, range i, ordered)

  pub Move-unique :
      {p p' : Pc} {m' : Mem} (mv : Move me m p m' p')
      → Mover inv me p
      → (i j : ℕ) → queued (update pc me p' i) ≡ true
      → queued (update pc me p' j) ≡ true
      → (next_queue mv q).place i ≡ (next_queue mv q).place j
      → i ≡ j
  Move-unique {p'} mv f i j o w e = elim (after_move queued pc me p' i o) [
    | inl (ei, a) ↦ elim (after_move queued pc me p' j w) [
      | inl (ej, b) ↦ sym ei ∙ ej
      | inr (nj, b) ↦ sym ei ∙ fresh_place mv f j nj a b (rw (← ei) at e)
    ]
    | inr (ni, a) ↦ elim (after_move queued pc me p' j w) [
      | inl (ej, b) ↦ sym (fresh_place mv f i ni b a (sym (rw (← ej) at e))) ∙ ej
      | inr (nj, b) ↦ unique i j a b (old_places mv i j ni nj e)
    ]
  ]
    where
      fresh_place :
          {p p' : Pc} {m' : Mem} (mv : Move me m p m' p')
          → Mover inv me p
          → (j : ℕ) → me ≢ j
          → queued p' ≡ true
          → queued (pc j) ≡ true
          → (next_queue mv q).place me ≡ (next_queue mv q).place j
          → me ≡ j
      fresh_place (Move.stay p) f j ne a b e = ground (arith, unique me j)
      fresh_place mv f j ne a b e = ground (arith, unique me j, range j)

      old_places :
          {p p' : Pc} {m' : Mem} (mv : Move me m p m' p') (i j : ℕ)
          → me ≢ i
          → me ≢ j
          → (next_queue mv q).place i ≡ (next_queue mv q).place j
          → q.place i ≡ q.place j
      old_places (Move.stay p) i j ni nj e = e
      old_places mv i j ni nj e = ground arith

  pub Move-ordered :
      {p p' : Pc} {m' : Mem} (mv : Move me m p m' p')
      → Mover inv me p
      → (next_queue mv q).head ≤ (next_queue mv q).fresh
  Move-ordered (Move.stay p) f = ordered
  Move-ordered mv f = ground (arith, ordered, range me)

  pub Move-empty :
      {p p' : Pc} {m' : Mem} (mv : Move me m p m' p')
      → Mover inv me p
      → m'.lock.tail ≡ 0
      → (next_queue mv q).head ≡ (next_queue mv q).fresh
  Move-empty (Move.stay p) f z = empty z
  Move-empty mv f z = ground (arith, empty, range me, guard mv)

  stays-Behind :
      {p p' : Pc} {m' : Mem} (mv : Move me m p m' p')
      → Mover inv me p
      → queued p' ≡ true
      → (next_queue mv q).place me ≢ (next_queue mv q).head
      → Behind (m'.node_locked me) p'
  stays-Behind (Move.stay p) f o ne = ground (arith, behind me)
  stays-Behind (Move.publish_first z) f o ne = ground (arith, empty)
  stays-Behind mv f o ne = ground (arith, behind me, guard mv)

  others_behind :
      {p p' : Pc} {m' : Mem} (mv : Move me m p m' p')
      → Mover inv me p
      → (i : ℕ) → me ≢ i
      → queued (pc i) ≡ true
      → (next_queue mv q).place i ≢ (next_queue mv q).head
      → (q.place i ≢ q.head) × (m'.node_locked i ≡ m.node_locked i)
  others_behind (Move.stay p) f i other o ne = (ne, refl)
  others_behind (Move.claim_win nx val g) f i other o ne =
      absurd (other ((only_winner nx val refl f g).1 i o))
  others_behind (Move.hand_over nx) f i other o ne =
      (ground (arith, unique me i, behind me), ground (arith, behind me))
  others_behind mv f i other o ne = (ground arith, ground arith)

  pub Move-Behind :
      {p p' : Pc} {m' : Mem} (mv : Move me m p m' p')
      → Mover inv me p
      → (i : ℕ) → queued (update pc me p' i) ≡ true
      → (next_queue mv q).place i ≢ (next_queue mv q).head
      → Behind (m'.node_locked i) (update pc me p' i)
  Move-Behind {p'} {m'} mv f =
      by_thread
        (λ i x.
          queued x ≡ true
          → (next_queue mv q).place i ≢ (next_queue mv q).head
          → Behind (m'.node_locked i) x)
        pc me p' (stays-Behind mv f)
        (λ i other o ne. let (a, b) = others_behind mv f i other o ne in rw b (behind i o a))
