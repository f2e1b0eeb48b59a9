-- ===== src/Qspinlock/Invariant/Owners.antt =====
-- A move keeps the owners of the lock word apart.
use mytests.Base.{
  ℕ, ◌*◌, ◌<◌, ◌≡◌, ◌≢◌, ◌⊎◌, inl, inr, refl, sym, ◌∙◌, arith, ℕ_discrete, Bool, true, false,
  Option, some,
}
use mathlib.Core.Path.{subst}
use mathlib.Core.Logic.{if_pos, if_neg}
use mytests.Qspinlock.Lock.{word, max_user_threads}
use mytests.Qspinlock.Masks.{IsSmall, code}
use mytests.Qspinlock.Thread.{Mem, Pc, update, take_pending}
use mytests.Qspinlock.Move.{Move, IsFree, IsLast}
use mytests.Qspinlock.Invariant.Defs.{owns, pends, takes, claims, queued, Queue, Locals, Inv}

-- The premise of a move, for the clauses that cannot name it.
abbrev pub Guard : {me : ℕ} {m m' : Mem} {p p' : Pc} → Move me m p m' p' → Type 0
Guard {m} (Move.fast_win _) = IsFree m.lock
Guard {m} (Move.pend_free _) = IsFree m.lock
Guard {m} (Move.pend_wait _ _) = (m.lock.pending ≡ 0) × (m.lock.tail ≡ 0)
Guard {m} (Move.pend_undo _ _) = (m.lock.pending ≡ 0) × (m.lock.tail ≢ 0)
Guard {m} (Move.pend_lose _) = m.lock.pending ≡ 1
Guard {m} (Move.owner_gone _) = m.lock.locked ≡ 0
Guard {me} {m} (Move.enqueue _) = m.count me ≡ 0
Guard {me} {m} (Move.nested _ _) = m.count me ≢ 0
Guard {m} (Move.try_win _) = IsFree m.lock
Guard {m} (Move.publish_first _) = m.lock.tail ≡ 0
Guard {m} (Move.publish_behind p _ _) = (p < max_user_threads) × IsLast p m.lock
Guard {me} {m} (Move.woken _) = m.node_locked me ≢ 0
Guard {me} {m} (Move.head_last nx _ _ _) =
    (m.lock.locked ≡ 0) × (m.lock.pending ≡ 0) × IsLast me m.lock
Guard {me} {m} (Move.head_more nx _ _ _) =
    (m.lock.locked ≡ 0) × (m.lock.pending ≡ 0) × (¬ IsLast me m.lock)
Guard {m} (Move.claim_lose nx val _) = word m.lock ≢ val
Guard {m} (Move.claim_win nx val _) = word m.lock ≡ val
Guard {me} {m} (Move.next_seen nx _) = m.next me ≡ some nx
Guard _ = Unit

pub guard : {me : ℕ} {m m' : Mem} {p p' : Pc} (mv : Move me m p m' p') → Guard mv
guard (Move.fast_win g) = g
guard (Move.pend_free g) = g
guard (Move.pend_wait g h) = (g, h)
guard (Move.pend_undo g h) = (g, h)
guard (Move.pend_lose g) = g
guard (Move.owner_gone g) = g
guard (Move.enqueue g) = g
guard (Move.nested c g) = g
guard (Move.try_win g) = g
guard (Move.publish_first g) = g
guard (Move.publish_behind p g h) = (g, h)
guard (Move.woken g) = g
guard (Move.head_last nx g h k) = (g, h, k)
guard (Move.head_more nx g h k) = (g, h, k)
guard (Move.claim_lose nx val g) = g
guard (Move.claim_win nx val g) = g
guard (Move.next_seen nx g) = g
guard _ = tt

false_of : (b : Bool) → (b ≡ true → ⊥) → b ≡ false
false_of true h = absurd (h refl)
false_of false h = refl

-- What holds of the mover at `p'` and of the others where they stand holds after the move.
pub by_thread {ℓ} :
    (P : ℕ → Pc → Type ℓ) (pc : ℕ → Pc) (me : ℕ) (p' : Pc)
    → P me p'
    → ((i : ℕ) → me ≢ i → P i (pc i))
    → (i : ℕ) → P i (update pc me p' i)
by_thread P pc me p' mine others i = elim (ℕ_discrete me i) [
  | yes e ↦ rw (if_pos _ e) (subst (λ k. P k p') e mine)
  | no e ↦ rw (if_neg _ e) (others i e)
]

-- A test of a thread's position after thread `me` has moved to `p'`.
module _ (g : Pc → Bool) (pc : ℕ → Pc) (me : ℕ) (p' : Pc) where
  pub after_move :
      (i : ℕ)
      → g (update pc me p' i) ≡ true
      → ((me ≡ i) × (g p' ≡ true)) ⊎ ((me ≢ i) × (g (pc i) ≡ true))
  after_move i o = elim (ℕ_discrete me i) [
    | yes e ↦ inl (e, rw (if_pos _ e) at o)
    | no e ↦ inr (e, rw (if_neg _ e) at o)
  ]

  -- At most one thread passes the test, if that was so and `me` can pass it only alone.
  pub one_after_move :
      ((i j : ℕ) → g (pc i) ≡ true → g (pc j) ≡ true → i ≡ j)
      → (g p' ≡ true → (j : ℕ) → g (pc j) ≡ true → me ≡ j)
      → (i j : ℕ) → g (update pc me p' i) ≡ true
      → g (update pc me p' j) ≡ true
      → i ≡ j
  one_after_move one alone i j o w = elim (after_move i o) [
    | inl (e, a) ↦ elim (after_move j w) [
      | inl (e', b) ↦ sym e ∙ e'
      | inr (ne, b) ↦ sym e ∙ alone a j b
    ]
    | inr (ne, a) ↦ elim (after_move j w) [
      | inl (e', b) ↦ sym (alone b i a) ∙ e'
      | inr (ne', b) ↦ one i j a b
    ]
  ]

-- A word with clear lower half has neither bit set, and its tail is the half-word above.
word_parts :
    (m : Mem) (t : ℕ)
    → IsSmall m.lock
    → word m.lock ≡ 65536 * t
    → (m.lock.locked ≡ 0) × (m.lock.pending ≡ 0) × (m.lock.tail ≡ t)
unfolding word
word_parts m t s e = omega arith

module _ {n : ℕ} {m : Mem} {pc : ℕ → Pc} {q : Queue} (inv : Inv m pc q n) (me : ℕ) where
  open inv use {
    small, own_locked, own_unique, pend_pending, pend_unique, take_free, claim_free, claim_alone,
    range, unique, behind, empty, last, locals,
  }

  -- Thread `me` stands at `p`. A match on `Move` needs the variable `p` for `pc me`.
  pub record Mover (p : Pc) : Type 0 where
    pub here : pc me ≡ p
    pub own : Locals m pc q me p

  pub mover : Mover (pc me)
  mover = record { here = refl; own = locals me }

  -- The compare-exchange of the queue head finds the lock free and no thread behind it.
  pub claim_alone_lem :
      {p : Pc} (nx : Option ℕ) (val : ℕ)
      → p ≡ Pc.claim_cas nx val
      → Mover p
      → word m.lock ≡ val
      → (m.lock.locked ≡ 0) × (m.lock.pending ≡ 0) × IsLast me m.lock
  claim_alone_lem nx val e f g = ground (arith, word_parts m (code me) small)

  pub Move-own_locked :
      {p p' : Pc} {m' : Mem}
      → Move me m p m' p'
      → Mover p
      → (i : ℕ) → owns (update pc me p' i) ≡ true
      → m'.lock.locked ≡ 1
  Move-own_locked (Move.stay p) f i o = ground (arith, own_locked i)
  Move-own_locked mv f i o = ground (arith, own_locked i, own_locked me, own_unique i me, guard mv)

  owner_alone :
      {p p' : Pc} {m' : Mem}
      → Move me m p m' p'
      → Mover p
      → owns p' ≡ true
      → (j : ℕ) → owns (pc j) ≡ true
      → me ≡ j
  owner_alone (Move.stay p) f o j w = ground (arith, own_unique me j)
  owner_alone (Move.claim_win nx val g) f o j w =
      ground (arith, own_locked j, claim_alone_lem nx val refl f g)
  owner_alone mv f o j w =
      ground (arith, own_locked j, own_unique me j, take_free me, claim_free me, guard mv)

  pub Move-own_unique :
      {p p' : Pc} {m' : Mem}
      → Move me m p m' p'
      → Mover p
      → (i j : ℕ) → owns (update pc me p' i) ≡ true
      → owns (update pc me p' j) ≡ true
      → i ≡ j
  Move-own_unique {p'} mv f = one_after_move owns pc me p' own_unique (owner_alone mv f)

  pub Move-pend_pending :
      {p p' : Pc} {m' : Mem}
      → Move me m p m' p'
      → Mover p
      → (i : ℕ) → pends (update pc me p' i) ≡ true
      → m'.lock.pending ≡ 1
  Move-pend_pending (Move.stay p) f i o = ground (arith, pend_pending i)
  Move-pend_pending (Move.claim_win nx val g) f i o =
      ground (arith, pend_pending i, claim_alone_lem nx val refl f g)
  Move-pend_pending mv f i o = ground (arith, pend_pending i, pend_unique i me, guard mv)

  pender_alone :
      {p p' : Pc} {m' : Mem}
      → Move me m p m' p'
      → Mover p
      → pends p' ≡ true
      → (j : ℕ) → pends (pc j) ≡ true
      → me ≡ j
  pender_alone (Move.stay p) f o j w = ground (arith, pend_unique me j)
  pender_alone mv f o j w = ground (arith, pend_unique me j, pend_pending j, guard mv)

  pub Move-pend_unique :
      {p p' : Pc} {m' : Mem}
      → Move me m p m' p'
      → Mover p
      → (i j : ℕ) → pends (update pc me p' i) ≡ true
      → pends (update pc me p' j) ≡ true
      → i ≡ j
  Move-pend_unique {p'} mv f = one_after_move pends pc me p' pend_unique (pender_alone mv f)

  pub at_head : (i : ℕ) → claims (pc i) ≡ true → (queued (pc i) ≡ true) × (q.place i ≡ q.head)
  at_head i c = ground (arith, behind i)

  -- With no tail nobody is queued.
  pub nobody : m.lock.tail ≡ 0 → (i : ℕ) → queued (pc i) ≡ false
  nobody z i = ground (arith, empty z, range i)

  pub Move-take_free :
      {p p' : Pc} {m' : Mem}
      → Move me m p m' p'
      → Mover p
      → (i : ℕ) → update pc me p' i ≡ take_pending
      → m'.lock.locked ≡ 0
  Move-take_free (Move.stay p) f i o = ground (arith, take_free i)
  Move-take_free mv f i o =
      ground (arith, take_free i, pend_pending i, pend_unique i me, claim_alone me i, guard mv)

  pub Move-claim_free :
      {p p' : Pc} {m' : Mem}
      → Move me m p m' p'
      → Mover p
      → (i : ℕ) → claims (update pc me p' i) ≡ true
      → m'.lock.locked ≡ 0
  Move-claim_free (Move.stay p) f i o = ground (arith, claim_free i)
  Move-claim_free (Move.fast_win g) f i o = ground (arith, at_head i, nobody g.2 i)
  Move-claim_free (Move.try_win g) f i o = ground (arith, at_head i, nobody g.2 i)
  Move-claim_free mv f i o =
      ground (arith, claim_free i, claim_alone i me, at_head i, at_head me, unique i me, guard mv)

  -- The mover neither starts to claim beside a pending taker nor becomes one beside a claim.
  no_taker :
      {p p' : Pc} {m' : Mem}
      → Move me m p m' p'
      → Mover p
      → claims p' ≡ true
      → (j : ℕ) → takes (pc j) ≡ false
  no_taker (Move.stay p) f o j = ground (arith, claim_alone me j)
  no_taker mv f o j = ground (arith, claim_alone me j, pend_pending j, guard mv)

  no_claim :
      {p p' : Pc} {m' : Mem}
      → Move me m p m' p'
      → Mover p
      → takes p' ≡ true
      → (i : ℕ) → claims (pc i) ≡ false
  no_claim (Move.stay p) f o i = ground (arith, claim_alone i me)
  no_claim (Move.pend_free g) f o i = ground (arith, at_head i, nobody g.2 i)
  no_claim (Move.pend_wait g h) f o i = ground (arith, at_head i, nobody h i)
  no_claim mv f o i = ground (arith, claim_alone i me, guard mv)

  apart :
      (p' : Pc) (i j : ℕ)
      → (claims p' ≡ true → takes (pc j) ≡ false)
      → (takes p' ≡ true → claims (pc i) ≡ false)
      → (claims p' ≡ true → takes p' ≡ false)
      → claims (update pc me p' i) ≡ true
      → takes (update pc me p' j) ≡ true
      → ⊥
  apart p' i j a b c o w = elim (after_move claims pc me p' i o) [
    | inl (e, x) ↦ elim (after_move takes pc me p' j w) [
      | inl (e', y) ↦ cc (c x)
      | inr (ne, y) ↦ cc (a x)
    ]
    | inr (ne, x) ↦ elim (after_move takes pc me p' j w) [
      | inl (e', y) ↦ cc (b y)
      | inr (ne', y) ↦ cc (claim_alone i j x)
    ]
  ]

  not_both : (p : Pc) → claims p ≡ true → takes p ≡ false
  not_both p c = ground arith

  pub Move-claim_alone :
      {p p' : Pc} {m' : Mem}
      → Move me m p m' p'
      → Mover p
      → (i j : ℕ) → claims (update pc me p' i) ≡ true
      → takes (update pc me p' j) ≡ false
  Move-claim_alone {p'} mv f i j o =
      false_of (takes (update pc me p' j))
        (apart p' i j (λ c. no_taker mv f c j) (λ t. no_claim mv f t i) (not_both p') o)
