-- ===== src/Qspinlock/Progress/Holders.antt =====
-- A move keeps an owner of the locked byte and of the pending bit, where they are set.
use mytests.Base.{ℕ, ◌≡◌, ◌≢◌, inl, inr, arith, Bool, true, false, Bool-cases}
use mytests.Qspinlock.Thread.{Mem, Pc, update}
use mytests.Qspinlock.Move.{Move}
use mytests.Qspinlock.Invariant.Defs.{owns, pends, Queue, Inv}
use mytests.Qspinlock.Invariant.Owners.{guard, Mover}
use mytests.Qspinlock.Progress.Defs.{Some, Alive}

pub mine :
    (g : Pc → Bool) (pc : ℕ → Pc) (me : ℕ) (p' : Pc) → g p' ≡ true → g (update pc me p' me) ≡ true
mine g pc me p' e = ground (arith, e)

pub other :
    (g : Pc → Bool) (pc : ℕ → Pc) (me j : ℕ) (p' : Pc)
    → g (pc me) ≡ false
    → g (pc j) ≡ true
    → g (update pc me p' j) ≡ true
other g pc me j p' e o = ground (arith, e, o)

module _ {n : ℕ} {m : Mem} {pc : ℕ → Pc} {q : Queue} (inv : Inv m pc q n) (alive : Alive m pc q)
    (me : ℕ) where
  open alive use {owner, pender}

  was_locked :
      {p p' : Pc} {m' : Mem}
      → Move me m p m' p'
      → owns p' ≡ false
      → m'.lock.locked ≢ 0
      → (m.lock.locked ≢ 0) × (owns p ≡ false)
  was_locked (Move.stay p) o l = (l, o)
  was_locked mv o l = (λ z. ground (arith, o, l, z, guard mv), ground (arith, o, l, guard mv))

  pub Move-owner :
      {p p' : Pc} {m' : Mem}
      → Move me m p m' p'
      → Mover inv me p
      → m'.lock.locked ≢ 0
      → Some owns (update pc me p')
  Move-owner {p} {p'} mv f l = elim (Bool-cases (owns p')) [
    | inl o ↦ (me, mine owns pc me p' o)
    | inr o ↦
        let (a, b) = was_locked mv o l in
        let (j, w) = owner a in (j, other owns pc me j p' (rw (f.here) b) w)
  ]

  was_pending :
      {p p' : Pc} {m' : Mem}
      → Move me m p m' p'
      → pends p' ≡ false
      → m'.lock.pending ≢ 0
      → (m.lock.pending ≢ 0) × (pends p ≡ false)
  was_pending (Move.stay p) o l = (l, o)
  was_pending mv o l = (λ z. ground (arith, o, l, z, guard mv), ground (arith, o, l, guard mv))

  pub Move-pender :
      {p p' : Pc} {m' : Mem}
      → Move me m p m' p'
      → Mover inv me p
      → m'.lock.pending ≢ 0
      → Some pends (update pc me p')
  Move-pender {p} {p'} mv f l = elim (Bool-cases (pends p')) [
    | inl o ↦ (me, mine pends pc me p' o)
    | inr o ↦
        let (a, b) = was_pending mv o l in
        let (j, w) = pender a in (j, other pends pc me j p' (rw (f.here) b) w)
  ]
