-- ===== src/Qspinlock/Invariant/Links.antt =====
-- A move keeps the links between the nodes, and the locals of the threads.
use mytests.Base.{ℕ, ◌+◌, ◌<◌, ◌≡◌, ◌≢◌, refl, ◌∙◌, arith, true, false}
use mytests.Base.{Option, none, some, ℕ_discrete}
use mytests.Qspinlock.Lock.{max_user_threads}
use mytests.Qspinlock.Thread.{Mem, Pc, update, link}
use mytests.Qspinlock.Move.{Move, IsLast}
use mytests.Qspinlock.Invariant.Defs.{queued, counted, Queue, Follows, FollowsIf, Last, Inv}
use mytests.Qspinlock.Invariant.Owners.{Mover, by_thread}
use mytests.Qspinlock.Invariant.Places.{next_queue, only_winner}

module _ {n : ℕ} {m : Mem} {pc : ℕ → Pc} {q : Queue} (inv : Inv m pc q n) (me : ℕ)
    (real : me < n) where
  open inv use {few, ordered, range, unique, behind, empty, last, linked, counts, locals}

  -- The tail always holds the code of a thread.
  pub tame : m.lock.tail ≢ 0 → ((p : ℕ) → p < max_user_threads → ¬ IsLast p m.lock) → ⊥
  tame z w = let l = last z in w l.who (omega arith) l.tail_code

  -- The thread with the last place is not the one that leaves the queue.
  pub Move-Last :
      {p p' : Pc} {m' : Mem} (mv : Move me m p m' p')
      → Mover inv me p
      → m'.lock.tail ≢ 0
      → Last m' (update pc me p') (next_queue mv q) n
  Move-Last (Move.publish_first z) f h = record {
    who = me;
    real = real;
    inside = ground arith;
    place_last = ground arith;
    tail_code = refl;
  }
  Move-Last (Move.publish_behind p g e) f h = record {
    who = me;
    real = real;
    inside = ground arith;
    place_last = ground arith;
    tail_code = refl;
  }
  Move-Last (Move.publish_wild z w) f h = absurd (tame z w)
  Move-Last (Move.fast_win g) f h = absurd (h refl)
  Move-Last (Move.try_win g) f h = absurd (h refl)
  Move-Last (Move.claim_win nx val g) f h = absurd (h refl)
  Move-Last (Move.hand_over nx) f h =
      let l = last h in
      record {
        who = l.who;
        real = l.real;
        inside = ground (arith, l.inside, range nx, l.place_last);
        place_last = l.place_last;
        tail_code = l.tail_code;
      }
  Move-Last (Move.stay p) f h =
      let l = last h in
      record {
        who = l.who;
        real = l.real;
        inside = ground (arith, l.inside);
        place_last = l.place_last;
        tail_code = l.tail_code;
      }
  Move-Last mv f h =
      let l = last h in
      record {
        who = l.who;
        real = l.real;
        inside = ground (arith, l.inside);
        place_last = l.place_last;
        tail_code = l.tail_code;
      }

  -- A thread that spins behind a queued one goes on spinning.
  pub Follows-kept :
      {p p' : Pc} {m' : Mem} (mv : Move me m p m' p')
      → Mover inv me p
      → (i j : ℕ) → queued (pc i) ≡ true
      → Follows m pc q i j
      → Follows m' (update pc me p') (next_queue mv q) i j
  Follows-kept (Move.stay p) f i j o (e, r) = (ground arith, r)
  Follows-kept (Move.woken g) f i j o (e, r) = (ground (arith, behind me, range i), r)
  Follows-kept mv f i j o (e, r) = (ground arith, ground arith)

  -- No node of a thread that is not spinning is written by another.
  pub nodes_kept :
      {p p' : Pc} {m' : Mem} (mv : Move me m p m' p')
      → Mover inv me p
      → (i : ℕ) → me ≢ i
      → queued (pc i) ≡ false
      → (m'.node_locked i ≡ m.node_locked i) × (m'.next i ≡ m.next i)
  nodes_kept (Move.stay p) f i other o = (refl, refl)
  nodes_kept mv f i other o = (ground arith, ground arith)

  counts_kept :
      {p p' : Pc} {m' : Mem} (mv : Move me m p m' p')
      → Mover inv me p
      → (m'.count me ≡ counted p') × ((i : ℕ) → me ≢ i → m'.count i ≡ m.count i)
  counts_kept (Move.stay p) f = (ground (arith, counts me), λ i e. refl)
  counts_kept (Move.enqueue g) f = (ground arith, λ i e. ground arith)
  counts_kept (Move.nested c g) f = (ground (arith, counts me), λ i e. ground arith)
  counts_kept (Move.publish_wild z w) f = absurd (tame z w)
  counts_kept mv f = (ground (arith, counts me), λ i e. ground arith)

  pub Move-counts :
      {p p' : Pc} {m' : Mem} (mv : Move me m p m' p')
      → Mover inv me p
      → (i : ℕ) → m'.count i ≡ counted (update pc me p' i)
  Move-counts {p'} {m'} mv f =
      let (mine, others) = counts_kept mv f in
      by_thread (λ i x. m'.count i ≡ counted x) pc me p' mine (λ i ne. others i ne ∙ counts i)

  links_kept :
      {p p' : Pc} {m' : Mem} (mv : Move me m p m' p')
      → Mover inv me p
      → (i j : ℕ) → me ≢ i
      → queued (pc i) ≡ true
      → m'.next i ≡ some j
      → Follows m' (update pc me p') (next_queue mv q) i j
  links_kept (Move.stay p) f i j ne o e = Follows-kept (Move.stay p) f i j o (linked i j o e)
  links_kept (Move.link_node p) f i j ne o e = elim (ℕ_discrete p i) [
    | yes at ↦ (ground arith, ground arith)
    | no off ↦ Follows-kept (Move.link_node p) f i j o (linked i j o (ground arith))
  ]
  links_kept mv f i j ne o e = Follows-kept mv f i j o (linked i j o (ground arith))

  links_own :
      {p p' : Pc} {m' : Mem} (mv : Move me m p m' p')
      → Mover inv me p
      → (j : ℕ) → queued p' ≡ true
      → m'.next me ≡ some j
      → Follows m' (update pc me p') (next_queue mv q) me j
  links_own (Move.stay p) f j o e =
      Follows-kept (Move.stay p) f me j (ground arith) (linked me j (ground arith) e)
  links_own (Move.publish_first z) f j o e = absurd (ground arith)
  links_own (Move.publish_behind p g z) f j o e = absurd (ground arith)
  links_own mv f j o e =
      Follows-kept mv f me j (ground arith) (linked me j (ground arith) (ground arith))

  pub Move-linked :
      {p p' : Pc} {m' : Mem} (mv : Move me m p m' p')
      → Mover inv me p
      → (i j : ℕ) → queued (update pc me p' i) ≡ true
      → m'.next i ≡ some j
      → Follows m' (update pc me p') (next_queue mv q) i j
  Move-linked {p'} {m'} mv f i j =
      by_thread
        (λ k x.
          queued x ≡ true → m'.next k ≡ some j → Follows m' (update pc me p') (next_queue mv q) k j)
        pc me p' (links_own mv f j) (λ k ne. links_kept mv f k j ne) i

  pub FollowsIf-kept :
      {p p' : Pc} {m' : Mem} (mv : Move me m p m' p')
      → Mover inv me p
      → (i : ℕ) (nx : Option ℕ) → queued (pc i) ≡ true
      → FollowsIf m pc q i nx
      → FollowsIf m' (update pc me p') (next_queue mv q) i nx
  FollowsIf-kept mv f i none o r = tt
  FollowsIf-kept mv f i (some j) o r = Follows-kept mv f i j o r

  pub FollowsIf-next :
      {p p' : Pc} {m' : Mem} (mv : Move me m p m' p')
      → Mover inv me p
      → (i : ℕ) (nx : Option ℕ) → queued (pc i) ≡ true
      → m.next i ≡ nx
      → FollowsIf m' (update pc me p') (next_queue mv q) i nx
  FollowsIf-next mv f i none o e = tt
  FollowsIf-next mv f i (some j) o e = Follows-kept mv f i j o (linked i j o e)

  -- The thread that another is about to link behind stays in the queue.
  pub prev_kept :
      {p p' : Pc} {m' : Mem} (mv : Move me m p m' p')
      → Mover inv me p
      → (i prev : ℕ) → me ≢ i
      → pc i ≡ link prev
      → queued (pc prev) ≡ true
      → q.place i ≡ q.place prev + 1
      → (queued (update pc me p' prev) ≡ true)
        × ((next_queue mv q).place i ≡ (next_queue mv q).place prev + 1)
  prev_kept (Move.stay p) f i prev ne e o r = (ground arith, r)
  prev_kept (Move.claim_win nx val g) f i prev ne e o r =
      absurd (ne ((only_winner inv me nx val refl f g).1 i (ground arith)))
  prev_kept (Move.hand_over nx) f i prev ne e o r = (ground (arith, unique i nx), r)
  prev_kept mv f i prev ne e o r = (ground arith, ground arith)
