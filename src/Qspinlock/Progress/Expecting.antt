-- ===== src/Qspinlock/Progress/Expecting.antt =====
-- A move keeps a thread behind the one that waits for it, or on its way there.
use mytests.Base.{
  ℕ, ◌+◌, ◌*◌, ◌<◌, ◌≡◌, ◌≢◌, ◌⊎◌, inl, inr, arith, true, Bool-cases, Option, ℕ_discrete,
}
use mytests.Qspinlock.Lock.{word}
use mytests.Qspinlock.Masks.{code}
use mytests.Qspinlock.Thread.{Mem, Pc, update, claim_cas, undo_pending}
use mytests.Qspinlock.Move.{Move, IsLast}
use mytests.Qspinlock.Invariant.Defs.{queued, Queue, Inv}
use mytests.Qspinlock.Invariant.Owners.{Mover, by_thread, nobody}
use mytests.Qspinlock.Invariant.Places.{next_queue}
use mytests.Qspinlock.Invariant.Links.{tame}
use mytests.Qspinlock.Progress.Defs.{bound, expects, Some, Alive}
use mytests.Qspinlock.Progress.Holders.{mine, other}

module _ {n : ℕ} {m : Mem} {pc : ℕ → Pc} {q : Queue} (inv : Inv m pc q n) (alive : Alive m pc q)
    (me : ℕ) (real : me < n) where
  open alive use {pender, expected}
  open inv use {small, claim_free, claim_alone, range, unique, behind, empty, last, locals, counts}

  abbrev pub Coming : (ℕ → Pc) → Queue → ℕ → Type 0
  Coming pc' q' i = (q'.place i + 1 < q'.fresh) ⊎ Some bound pc'

  -- A queued thread that is not the last one has another behind it.
  not_last : queued (pc me) ≡ true → ¬ IsLast me m.lock → q.place me + 1 < q.fresh
  not_last o w =
      let t : m.lock.tail ≢ 0 = λ z. ground (arith, z, nobody inv me z me, o) in
      let b = last t in
      ground (arith, b.inside, b.tail_code, b.place_last, unique me b.who, range me)

  -- The head's compare-exchange fails for a thread behind it, or for one at the pending bit.
  lost :
      (nx : Option ℕ) (val : ℕ)
      → pc me ≡ claim_cas nx val
      → val ≡ 65536 * code me
      → word m.lock ≢ val
      → (q.place me + 1 < q.fresh) ⊎ ((k : ℕ) × (pc k ≡ undo_pending))
  unfolding word
  lost nx val e v w = elim (ℕ_discrete m.lock.tail (code me)) [
    | no t ↦ inl (not_last (ground (arith, e)) t)
    | yes t ↦
        let p : m.lock.pending ≢ 0 = λ z. w (ground (arith, z, t, v, claim_free me, e)) in
        let (k, o) = pender p in inr (k, ground (arith, o, claim_alone me k, e))
  ]

  -- A thread on its way goes on, until it is behind the one that waits.
  bound_on :
      {p p' : Pc} {m' : Mem} (mv : Move me m p m' p')
      → Mover inv me p
      → (i : ℕ) → expects (pc i) ≡ true
      → bound p ≡ true
      → (bound p' ≡ true) ⊎ ((next_queue mv q).place i + 1 < (next_queue mv q).fresh)
  bound_on (Move.stay p) f i x b = inl b
  bound_on (Move.publish_first z) f i x b = absurd (ground (arith, nobody inv me z i, x))
  bound_on (Move.publish_behind p lt l) f i x b = inr (ground (arith, range i, x))
  bound_on (Move.publish_wild z w) f i x b = absurd (tame inv me real z w)
  bound_on (Move.nested c g) f i x b = absurd (ground (arith, counts me))
  bound_on (Move.try_win g) f i x b = absurd (ground (arith, nobody inv me g.2 i, x))
  bound_on mv f i x b = inl (ground (arith, b))

  place_on :
      {p p' : Pc} {m' : Mem} (mv : Move me m p m' p')
      → Mover inv me p
      → (i : ℕ) → queued (pc i) ≡ true
      → q.place i + 1 < q.fresh
      → (next_queue mv q).place i + 1 < (next_queue mv q).fresh
  place_on (Move.stay p) f i x h = h
  place_on mv f i x h = ground (arith, x, h)

  arrives_on :
      {p p' : Pc} {m' : Mem} (mv : Move me m p m' p')
      → Mover inv me p
      → (i : ℕ) → expects (pc i) ≡ true
      → Coming pc q i
      → Coming (update pc me p') (next_queue mv q) i
  arrives_on {p'} mv f i x (inl h) = inl (place_on mv f i (ground (arith, x)) h)
  arrives_on {p} {p'} mv f i x (inr (k, b)) = elim (Bool-cases (bound (pc me))) [
    | inr off ↦ inr (k, other bound pc me k p' off b)
    | inl on_way ↦ elim (bound_on mv f i x (rw (← f.here) on_way)) [
      | inl b' ↦ inr (me, mine bound pc me p' b')
      | inr h ↦ inl h
    ]
  ]

  arrives_mine :
      {p p' : Pc} {m' : Mem} (mv : Move me m p m' p')
      → Mover inv me p
      → expects p' ≡ true
      → Coming (update pc me p') (next_queue mv q) me
  arrives_mine (Move.stay p) f x =
      arrives_on (Move.stay p) f me (rw (f.here) x) (expected me (rw (f.here) x))
  arrives_mine (Move.head_more nx a b c) f x = inl (not_last (ground arith) c)
  arrives_mine (Move.claim_lose nx val g) f x = elim (lost nx val f.here f.own.1 g) [
    | inl h ↦ inl h
    | inr (k, e) ↦ inr (k, ground (arith, e))
  ]
  arrives_mine Move.claim_unknown f x =
      arrives_on Move.claim_unknown f me (ground arith) (expected me (ground arith))
  arrives_mine mv f x = absurd (ground (arith, x))

  pub Move-expected :
      {p p' : Pc} {m' : Mem} (mv : Move me m p m' p')
      → Mover inv me p
      → (i : ℕ) → expects (update pc me p' i) ≡ true
      → Coming (update pc me p') (next_queue mv q) i
  Move-expected {p'} mv f =
      by_thread (λ i x. expects x ≡ true → Coming (update pc me p') (next_queue mv q) i) pc me p'
        (arrives_mine mv f) (λ i ne x. arrives_on mv f i x (expected i x))
