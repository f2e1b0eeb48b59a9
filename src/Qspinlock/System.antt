-- ===== src/Qspinlock/System.antt =====
-- `n` threads over one lock, interleaved in any order.
use mytests.Base.{ℕ, ◌<◌, none}
use mytests.Qspinlock.Thread.{Mem, Pc, update, advance}

-- An index from `n` on names no thread: it is never picked, and stays `idle`.
pub record System : Type 0 where
  pub mem : Mem
  pub pc : ℕ → Pc

unfoldable pub step : ℕ → System → System
step i s = let (m, p) = advance i s.mem (s.pc i) in record { mem = m; pc = update s.pc i p }

-- Zeroed storage, and no thread in the lock.
abbrev pub init : System
init = record {
  mem = record {
    lock = record { locked = 0; pending = 0; tail = 0 };
    next = λ _. none;
    node_locked = λ _. 0;
    count = λ _. 0;
  };
  pc = λ _. Pc.idle;
}

-- The states that `n` threads can get to. A thread that is done is just never picked.
pub data Reach (n : ℕ) : System → Type 0 where
  start : Reach n init
  later : {s : System} (i : ℕ) → i < n → Reach n s → Reach n (step i s)
