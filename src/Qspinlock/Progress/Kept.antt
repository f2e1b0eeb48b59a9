-- ===== src/Qspinlock/Progress/Kept.antt =====
-- In every state that the threads get to, each reason to wait has a thread that will end it.
use mytests.Base.{ℕ, ◌≤◌, ◌<◌, refl, arith}
use mytests.Qspinlock.Lock.{max_user_threads}
use mytests.Qspinlock.Thread.{Mem, Pc, update}
use mytests.Qspinlock.Move.{Move}
use mytests.Qspinlock.Invariant.Defs.{Queue, Inv}
use mytests.Qspinlock.Invariant.Owners.{Mover, mover}
use mytests.Qspinlock.Invariant.Places.{next_queue}
use mytests.Qspinlock.Invariant.Kept.{no_queue, Inv-init, Move-Inv}
use mytests.Qspinlock.Cover.{advance-Move}
use mytests.Qspinlock.System.{System, step, init, Reach, start, later}
use mytests.Qspinlock.Progress.Defs.{Alive}
use mytests.Qspinlock.Progress.Holders.{Move-owner, Move-pender}
use mytests.Qspinlock.Progress.Queued.{Move-filled, Move-head_woken}
use mytests.Qspinlock.Progress.Linking.{Move-linking}
use mytests.Qspinlock.Progress.Expecting.{Move-expected}

module _ {n : ℕ} {m : Mem} {pc : ℕ → Pc} {q : Queue} (inv : Inv m pc q n) (alive : Alive m pc q)
    (me : ℕ) (real : me < n) where
  pub Move-Alive :
      {p' : Pc} {m' : Mem} (mv : Move me m (pc me) m' p')
      → Alive m' (update pc me p') (next_queue mv q)
  Move-Alive {p'} {m'} mv = record {
    owner = Move-owner inv alive me mv f;
    pender = Move-pender inv alive me mv f;
    filled = Move-filled inv alive me mv f;
    head_woken = Move-head_woken inv alive me mv f;
    linking = Move-linking inv alive me mv f;
    expected = Move-expected inv alive me real mv f;
  }
    where
      f : Mover inv me (pc me)
      f = mover inv me

Alive-init : Alive init.mem init.pc no_queue
Alive-init = record {
  owner = λ h. absurd (h refl);
  pender = λ h. absurd (h refl);
  filled = λ p lo hi. absurd (omega arith);
  head_woken = λ i e. cc;
  linking = λ i j o. cc;
  expected = λ i o. cc;
}

-- A state with a queue that explains it and keeps it alive.
pub record Live (n : ℕ) (s : System) : Type 0 where
  pub line : Queue
  pub inv : Inv s.mem s.pc line n
  pub alive : Alive s.mem s.pc line

step-Live : {n : ℕ} {s : System} (i : ℕ) → i < n → Live n s → Live n (step i s)
unfolding step
step-Live {s} i lt x =
    let inv = x.inv in
    let mv = advance-Move i s.mem (s.pc i) (omega (arith, inv.few)) inv.small in
    record {
      line = next_queue mv x.line;
      inv = Move-Inv inv i lt mv;
      alive = Move-Alive inv x.alive i lt mv;
    }

pub Reach-Live : {n : ℕ} {s : System} → n ≤ max_user_threads → Reach n s → Live n s
Reach-Live {n} few start = record { line = no_queue; inv = Inv-init n few; alive = Alive-init }
Reach-Live few (later i lt r) = step-Live i lt (Reach-Live few r)
