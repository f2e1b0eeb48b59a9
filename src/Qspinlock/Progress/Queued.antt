-- ===== src/Qspinlock/Progress/Queued.antt =====
-- A move keeps the queue full, its head woken and its threads linked or about to be.
use mytests.Base.{ℕ, ◌≤◌, ◌<◌, ◌≡◌, ◌≢◌, refl, ◌∙◌, arith, true, dec_lt}
use mytests.Qspinlock.Thread.{Mem, Pc, update, wait_node}
use mytests.Qspinlock.Move.{Move}
use mytests.Qspinlock.Invariant.Defs.{queued, Queue, Inv}
use mytests.Qspinlock.Invariant.Owners.{Mover, by_thread}
use mytests.Qspinlock.Invariant.Places.{next_queue, only_winner}
use mytests.Qspinlock.Progress.Defs.{Alive}
use mytests.Qspinlock.Progress.Holders.{mine}

module _ {n : ℕ} {m : Mem} {pc : ℕ → Pc} {q : Queue} (inv : Inv m pc q n) (alive : Alive m pc q)
    (me : ℕ) where
  open alive use {filled, head_woken, linking}
  open inv use {range, unique, behind, empty, last, locals}

  abbrev pub Filled : (ℕ → Pc) → Queue → ℕ → Type 0
  Filled pc' q' p = (i : ℕ) × (queued (pc' i) ≡ true) × (q'.place i ≡ p)

  pub Move-filled :
      {p p' : Pc} {m' : Mem} (mv : Move me m p m' p')
      → Mover inv me p
      → (x : ℕ) → (next_queue mv q).head ≤ x
      → x < (next_queue mv q).fresh
      → Filled (update pc me p') (next_queue mv q) x
  Move-filled (Move.stay p) f x lo hi = let (i, o, e) = filled x lo hi in (i, ground (arith, o), e)
  Move-filled {p'} (Move.publish_first z) f x lo hi = elim (dec_lt x q.fresh) [
    | yes old ↦ let (i, o, e) = filled x lo old in (i, ground (arith, o), ground (arith, o, e))
    | no new ↦ (me, mine queued pc me p' refl, ground arith)
  ]
  Move-filled {p'} (Move.publish_behind w lt l) f x lo hi = elim (dec_lt x q.fresh) [
    | yes old ↦ let (i, o, e) = filled x lo old in (i, ground (arith, o), ground (arith, o, e))
    | no new ↦ (me, mine queued pc me p' refl, ground arith)
  ]
  Move-filled (Move.claim_win nx val g) f x lo hi = absurd (omega arith)
  Move-filled (Move.hand_over nx) f x lo hi =
      let (i, o, e) = filled x (omega arith) hi in (i, ground (arith, o, e, behind me), e)
  Move-filled mv f x lo hi =
      let (i, o, e) = filled x (ground arith) (ground arith) in
      (i, ground (arith, o), ground (arith, e))

  woken_mine :
      {p p' : Pc} {m' : Mem} (mv : Move me m p m' p')
      → Mover inv me p
      → p' ≡ wait_node
      → (next_queue mv q).place me ≡ (next_queue mv q).head
      → m'.node_locked me ≢ 0
  woken_mine (Move.stay p) f e h = head_woken me (f.here ∙ e) h
  woken_mine (Move.link_node p) f e h = ground (arith, range p)
  woken_mine mv f e h = ground (arith, e)

  woken_other :
      {p p' : Pc} {m' : Mem} (mv : Move me m p m' p')
      → Mover inv me p
      → (i : ℕ) → me ≢ i
      → pc i ≡ wait_node
      → (next_queue mv q).place i ≡ (next_queue mv q).head
      → m'.node_locked i ≢ 0
  woken_other (Move.stay p) f i ne e h = head_woken i e h
  woken_other (Move.claim_win nx val g) f i ne e h =
      absurd (ne ((only_winner inv me nx val refl f g).1 i (ground (arith, e))))
  woken_other (Move.hand_over nx) f i ne e h = ground (arith, behind me, unique nx i)
  woken_other mv f i ne e h = ground (arith, head_woken i e)

  pub Move-head_woken :
      {p p' : Pc} {m' : Mem} (mv : Move me m p m' p')
      → Mover inv me p
      → (i : ℕ) → update pc me p' i ≡ wait_node
      → (next_queue mv q).place i ≡ (next_queue mv q).head
      → m'.node_locked i ≢ 0
  Move-head_woken {p'} {m'} mv f =
      by_thread
        (λ i x.
          x ≡ wait_node → (next_queue mv q).place i ≡ (next_queue mv q).head → m'.node_locked i ≢ 0)
        pc me p' (woken_mine mv f) (λ i ne. woken_other mv f i ne)
