-- ===== src/Qspinlock/Invariant/Kept.antt =====
-- Every move keeps the invariant, and so does every step of the system.
use mytests.Base.{ℕ, ◌<◌, ◌≤◌, ◌≡◌, ◌≢◌, refl, ◌∙◌, arith}
use mathlib.Core.Path.{fun_ext}
use mytests.Qspinlock.Lock.{word, max_user_threads}
use mytests.Qspinlock.Masks.{IsSmall}
use mytests.Qspinlock.Thread.{
  Mem, Pc, update, idle, init_next, trylock_read, trylock_cas, publish, link, wait_head, claim_cas,
  claim_set, pass, aborted,
}
use mytests.Qspinlock.Move.{Move}
use mytests.Qspinlock.Invariant.Defs.{Queue, Locals, Inv}
use mytests.Qspinlock.Invariant.Owners.{
  Mover, mover, by_thread, Move-own_locked, Move-own_unique, Move-pend_pending, Move-pend_unique,
  Move-take_free, Move-claim_free, Move-claim_alone,
}
use mytests.Qspinlock.Invariant.Places.{
  next_queue, Move-range, Move-unique, Move-ordered, Move-empty, Move-Behind,
}
use mytests.Qspinlock.Invariant.Links.{
  tame, Move-Last, Follows-kept, nodes_kept, FollowsIf-kept, FollowsIf-next, prev_kept, Move-counts,
  Move-linked,
}
use mytests.Qspinlock.Cover.{advance-Move}
use mytests.Qspinlock.System.{System, step, init, Reach, start, later}

update_self : (pc : ℕ → Pc) (me : ℕ) (p : Pc) → pc me ≡ p → update pc me p ≡ pc
update_self pc me p e = fun_ext (λ i. ground arith)

module _ {n : ℕ} {m : Mem} {pc : ℕ → Pc} {q : Queue} (inv : Inv m pc q n) (me : ℕ)
    (real : me < n) where
  open inv use {few, small, asleep, last, linked, counts, locals}

  Locals-kept :
      {p p' : Pc} {m' : Mem} (mv : Move me m p m' p')
      → Mover inv me p
      → (i : ℕ) → me ≢ i
      → (x : Pc) → pc i ≡ x
      → Locals m pc q i x
      → Locals m' (update pc me p') (next_queue mv q) i x
  Locals-kept mv f i ne init_next e l = rw (nodes_kept inv me real mv f i ne (ground arith)).0 l
  Locals-kept mv f i ne trylock_read e l =
      let (a, b) = nodes_kept inv me real mv f i ne (ground arith) in (a ∙ l.0, b ∙ l.1)
  Locals-kept mv f i ne trylock_cas e l =
      let (a, b) = nodes_kept inv me real mv f i ne (ground arith) in (a ∙ l.0, b ∙ l.1)
  Locals-kept mv f i ne publish e l =
      let (a, b) = nodes_kept inv me real mv f i ne (ground arith) in (a ∙ l.0, b ∙ l.1)
  Locals-kept mv f i ne (link prev) e l = prev_kept inv me real mv f i prev ne e l.0 l.1
  Locals-kept mv f i ne (wait_head nx) e l = FollowsIf-kept inv me real mv f i nx (ground arith) l
  Locals-kept mv f i ne (claim_cas nx val) e l =
      (FollowsIf-kept inv me real mv f i nx (ground arith) l.0, l.1)
  Locals-kept mv f i ne (claim_set nx) e l = FollowsIf-kept inv me real mv f i nx (ground arith) l
  Locals-kept mv f i ne (pass nx) e l = Follows-kept inv me real mv f i nx (ground arith) l
  Locals-kept mv f i ne aborted e l = l
  Locals-kept mv f i ne _ e l = tt

  Locals-own :
      {p p' : Pc} {m' : Mem} (mv : Move me m p m' p')
      → Mover inv me p
      → Locals m' (update pc me p') (next_queue mv q) me p'
  Locals-own (Move.stay p) f = rw (update_self pc me p f.here) f.own
  Locals-own Move.clear_node f = ground arith
  Locals-own Move.clear_next f = (f.own, ground arith)
  Locals-own Move.try_busy f = f.own
  Locals-own Move.try_free f = f.own
  Locals-own Move.try_lose f = f.own
  Locals-own (Move.publish_behind prev g e) f =
      let l = last (omega arith) in
      (ground (arith, l.inside, l.tail_code), ground (arith, l.inside, l.tail_code, l.place_last))
  Locals-own (Move.publish_wild z w) f = tame inv me real z w
  Locals-own Move.look_next f =
      FollowsIf-next inv me real Move.look_next f me (m.next me) (ground arith) refl
  Locals-own (Move.head_last nx a b c) f = (
    FollowsIf-kept inv me real (Move.head_last nx a b c) f me nx (ground arith) f.own,
    unfold word in omega arith,
  )
  Locals-own (Move.head_more nx a b c) f =
      FollowsIf-kept inv me real (Move.head_more nx a b c) f me nx (ground arith) f.own
  Locals-own (Move.claim_lose nx val g) f =
      FollowsIf-kept inv me real (Move.claim_lose nx val g) f me nx (ground arith) f.own.0
  Locals-own (Move.claim_known nx) f =
      Follows-kept inv me real (Move.claim_known nx) f me nx (ground arith) f.own
  Locals-own (Move.next_seen nx e) f =
      Follows-kept inv me real (Move.next_seen nx e) f me nx (ground arith)
        (linked me nx (ground arith) e)
  Locals-own (Move.nested c g) f = ground (arith, counts me)
  Locals-own _ f = tt

  Move-IsSmall : {p p' : Pc} {m' : Mem} (mv : Move me m p m' p') → Mover inv me p → IsSmall m'.lock
  Move-IsSmall (Move.stay p) f = small
  Move-IsSmall mv f = ground (arith, few)

  Move-asleep :
      {p p' : Pc} {m' : Mem} (mv : Move me m p m' p') → (i : ℕ) → n ≤ i → update pc me p' i ≡ idle
  Move-asleep mv i h = ground (arith, asleep i)

  -- Every move keeps the invariant, with the queue that the move makes.
  pub Move-Inv :
      {p' : Pc} {m' : Mem} (mv : Move me m (pc me) m' p')
      → Inv m' (update pc me p') (next_queue mv q) n
  Move-Inv {p'} {m'} mv = record {
    few = few;
    small = Move-IsSmall mv f;
    asleep = Move-asleep mv;
    own_locked = Move-own_locked inv me mv f;
    own_unique = Move-own_unique inv me mv f;
    pend_pending = Move-pend_pending inv me mv f;
    pend_unique = Move-pend_unique inv me mv f;
    take_free = Move-take_free inv me mv f;
    claim_free = Move-claim_free inv me mv f;
    claim_alone = Move-claim_alone inv me mv f;
    ordered = Move-ordered inv me mv f;
    range = Move-range inv me mv f;
    unique = Move-unique inv me mv f;
    behind = Move-Behind inv me mv f;
    empty = Move-empty inv me mv f;
    last = Move-Last inv me real mv f;
    linked = Move-linked inv me real mv f;
    counts = Move-counts inv me real mv f;
    locals =
        by_thread (λ i x. Locals m' (update pc me p') (next_queue mv q) i x) pc me p'
          (Locals-own mv f) (λ i ne. Locals-kept mv f i ne (pc i) refl (locals i));
  }
    where
      f : Mover inv me (pc me)
      f = mover inv me

abbrev pub no_queue : Queue
no_queue = record { place = λ _. 0; head = 0; fresh = 0 }

pub Inv-init : (n : ℕ) → n ≤ max_user_threads → Inv init.mem init.pc no_queue n
Inv-init n few = record {
  few = few;
  small = record {
    locked_bit = omega arith;
    pending_bit = omega arith;
    tail_fits = omega arith;
    no_idx = refl;
  };
  asleep = λ i h. refl;
  own_locked = λ i o. cc;
  own_unique = λ i j o. cc;
  pend_pending = λ i o. cc;
  pend_unique = λ i j o. cc;
  take_free = λ i o. cc;
  claim_free = λ i o. cc;
  claim_alone = λ i j o. cc;
  ordered = omega arith;
  range = λ i o. cc;
  unique = λ i j o. cc;
  behind = λ i o. cc;
  empty = λ z. refl;
  last = λ h. absurd (h refl);
  linked = λ i j o. cc;
  counts = λ i. refl;
  locals = λ i. tt;
}

-- A state with a queue that explains it.
pub record Explained (n : ℕ) (s : System) : Type 0 where
  pub line : Queue
  pub inv : Inv s.mem s.pc line n

step-Inv : {n : ℕ} {s : System} (i : ℕ) → i < n → Explained n s → Explained n (step i s)
unfolding step
step-Inv {s} i lt x =
    let inv = x.inv in
    let mv = advance-Move i s.mem (s.pc i) (omega (arith, inv.few)) inv.small in
    record { line = next_queue mv x.line; inv = Move-Inv inv i lt mv }

pub Reach-Inv : {n : ℕ} {s : System} → n ≤ max_user_threads → Reach n s → Explained n s
Reach-Inv {n} few start = record { line = no_queue; inv = Inv-init n few }
Reach-Inv few (later i lt r) = step-Inv i lt (Reach-Inv few r)
