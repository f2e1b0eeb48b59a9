-- ===== src/Qspinlock/Order.antt =====
-- The queued spinlock serves its queue in order.
use mytests.Base.{ℕ, ◌≤◌, ◌<◌, ◌≡◌, ◌⊎◌, inl, inr, refl, arith, Bool, true, false}
use mytests.Qspinlock.Lock.{max_user_threads}
use mytests.Qspinlock.Thread.{Mem, Pc, update, publish, link, wait_node}
use mytests.Qspinlock.Move.{Move}
use mytests.Qspinlock.Cover.{advance-Move}
use mytests.Qspinlock.Invariant.Defs.{queued, Queue, Inv, Behind}
use mytests.Qspinlock.Invariant.Owners.{Mover, mover}
use mytests.Qspinlock.Invariant.Places.{next_queue}
use mytests.Qspinlock.Invariant.Kept.{Explained, Reach-Inv, Move-Inv}
use mytests.Qspinlock.System.{System, step, Reach, later}
use mytests.Qspinlock.Safety.{never_aborts}
use mytests.Base.{Option, none, some, if◌then◌else◌}
use mytests.Qspinlock.Lock.{xchg_tail, encode_tail, decode_tail, has_tail}
use mytests.Qspinlock.Thread.{advance, after_publish, aborted, wait_head}

-- `t` comes after `s`, and thread `i` is in the queue all the way.
pub data Stays (n i : ℕ) (s : System) : System → Type 0 where
  still : Stays n i s s
  further :
      {t : System} (k : ℕ)
      → k < n
      → Stays n i s t
      → queued ((step k t).pc i) ≡ true
      → Stays n i s (step k t)

-- Thread `i` is before thread `j` in the queue.
record Before (n i j : ℕ) (s : System) : Type 0 where
  line : Queue
  inv : Inv s.mem s.pc line n
  first : queued (s.pc i) ≡ true
  second : queued (s.pc j) ≡ true
  places : line.place i < line.place j

module _ {n : ℕ} {m : Mem} {pc : ℕ → Pc} {q : Queue} (inv : Inv m pc q n) (me : ℕ) where
  open inv use {range, unique, behind, ordered}

  -- Behind another thread one only waits.
  waits :
      (i j : ℕ)
      → queued (pc i) ≡ true
      → queued (pc j) ≡ true
      → q.place i < q.place j
      → Behind (m.node_locked j) (pc j)
  waits i j a b lt = behind j b (λ e. omega (arith, e, lt, range i a))

  Before-kept :
      {p p' : Pc} {m' : Mem} (mv : Move me m p m' p')
      → Mover inv me p
      → (i j : ℕ) → queued (pc i) ≡ true
      → queued (pc j) ≡ true
      → q.place i < q.place j
      → (queued (update pc me p' j) ≡ true)
        × ((next_queue mv q).place i < (next_queue mv q).place j)
  Before-kept (Move.stay p) f i j a b lt = (ground (arith, b), lt)
  Before-kept mv f i j a b lt =
      let w = waits i j a b lt in (ground (arith, b, w), ground (arith, a, b, lt))

  -- A thread that publishes its node is behind every thread of the queue.
  Before-publish :
      {p p' : Pc} {m' : Mem} (mv : Move me m p m' p')
      → Mover inv me p
      → p ≡ publish
      → queued p' ≡ true
      → (i : ℕ) → queued (pc i) ≡ true
      → (next_queue mv q).place i < (next_queue mv q).place me
  Before-publish (Move.stay p) f e o i a = ground (arith, e, o)
  Before-publish mv f e o i a = ground (arith, e, o, a, range i)

  others_queued :
      (p' : Pc) (i : ℕ) → queued (pc i) ≡ true → pc me ≡ publish → queued (update pc me p' i) ≡ true
  others_queued p' i a e = ground (arith, a, e)

published :
    (me : ℕ) (m : Mem)
    → (queued (advance me m publish).1 ≡ true) ⊎ ((advance me m publish).1 ≡ aborted)
unfolding advance after_publish
published me m =
    outcome (has_tail (xchg_tail m.lock (encode_tail me)).0)
      (decode_tail (xchg_tail m.lock (encode_tail me)).0)
  where
    outcome :
        (b : Bool) (o : Option ℕ)
        → let p = if b then elim o [ none ↦ aborted | some prev ↦ link prev ] else wait_head none in
          (queued p ≡ true) ⊎ (p ≡ aborted)
    outcome false o = inl refl
    outcome true none = inr refl
    outcome true (some prev) = inl refl

-- The tail names a thread, so that nothing is aborted.
enters :
    {n : ℕ} {s : System} (j : ℕ)
    → n ≤ max_user_threads
    → Reach n s
    → j < n
    → s.pc j ≡ publish
    → queued ((step j s).pc j) ≡ true
unfolding step
enters {n} {s} j few r lt e =
    let safe = never_aborts few (later j lt r) j in
    elim (published j s.mem) [
      | inl o ↦ ground (arith, e, o)
      | inr o ↦ absurd (safe (ground (arith, e, o)))
    ]

publishes :
    {n : ℕ} {s : System} (i j : ℕ)
    → Explained n s
    → j < n
    → queued (s.pc i) ≡ true
    → s.pc j ≡ publish
    → queued ((step j s).pc j) ≡ true
    → Before n i j (step j s)
unfolding step
publishes {n} {s} i j x lt a e o =
    let inv = x.inv in
    let mv = advance-Move j s.mem (s.pc j) (omega (arith, lt, inv.few)) inv.small in
    record {
      line = next_queue mv x.line;
      inv = Move-Inv inv j lt mv;
      first = others_queued inv j _ i a e;
      second = o;
      places = Before-publish inv j mv (mover inv j) e (ground (arith, o)) i a;
    }

step-Before :
    {n : ℕ} {s : System} (k i j : ℕ)
    → k < n
    → Before n i j s
    → queued ((step k s).pc i) ≡ true
    → Before n i j (step k s)
unfolding step
step-Before {n} {s} k i j lt b a =
    let inv = b.inv in
    let mv = advance-Move k s.mem (s.pc k) (omega (arith, lt, inv.few)) inv.small in
    let (o, h) = Before-kept inv k mv (mover inv k) i j b.first b.second b.places in
    record {
      line = next_queue mv b.line;
      inv = Move-Inv inv k lt mv;
      first = a;
      second = o;
      places = h;
    }

Stays-Before : {n i j : ℕ} {s t : System} → Stays n i s t → Before n i j s → Before n i j t
Stays-Before still b = b
Stays-Before {j = j} (further k lt r a) b = step-Before k _ j lt (Stays-Before r b) a

-- No overtaking: a thread that publishes its node while another one is in the queue only links its node and
-- spins on it, for as long as the other one has not left the queue.
pub no_overtaking :
    {n : ℕ} {s t : System}
    → n ≤ max_user_threads
    → Reach n s
    → (i j : ℕ) → j < n
    → queued (s.pc i) ≡ true
    → s.pc j ≡ publish
    → Stays n i (step j s) t
    → ((p : ℕ) × (t.pc j ≡ link p)) ⊎ (t.pc j ≡ wait_node)
no_overtaking {n} {s} {t} few r i j lt a e path =
    let o = enters j few r lt e in
    let b = Stays-Before path (publishes i j (Reach-Inv few r) lt a e o) in
    spins (t.mem.node_locked j) (t.pc j) refl (waits b.inv j i j b.first b.second b.places)
  where
    spins :
        (locked : ℕ) (p : Pc)
        → t.pc j ≡ p
        → Behind locked p
        → ((q : ℕ) × (t.pc j ≡ link q)) ⊎ (t.pc j ≡ wait_node)
    spins locked (link q) h w = inl (q, h)
    spins locked wait_node h w = inr h
    spins locked _ h w = absurd w
