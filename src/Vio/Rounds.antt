-- ===== src/Vio/Rounds.antt =====
-- The rounds of a server of mysql/vio-bench/ or mysql/vio-bench2/, with what it counts.
use mytests.Base.{ℕ, suc, ◌+◌, ◌*◌, ◌≤◌, ◌<◌, ◌≡◌, refl, arith}
use mytests.Base.{List, [], length}
use mathlib.Core.Path.{subst}
use mytests.Vio.Defs.{Status, success, peer_closed, error, waiting}
use mytests.Vio.Handlers.{
  Socket, End, client_closed, read_error, write_error, reading, writing, running, read_end,
  write_end,
}
use mytests.Vio.Reads.{Outcome}
use mytests.Vio.Moves.{Moves, same-Moves, Moves-as, Moves-both, Part}

-- The round that ends the handler: it has read `a` bytes and sent `b`, and the stream that it leaves.
pub data Last (c2s_size s2c_size : ℕ) : End → (a b : ℕ) → List ℕ → Type 0 where
  at_end : (a : ℕ) → a < c2s_size → Last c2s_size s2c_size client_closed a 0 []
  no_read : (a : ℕ) (rest : List ℕ) → a < c2s_size → Last c2s_size s2c_size read_error a 0 rest
  in_read : (a : ℕ) (rest : List ℕ) → a < c2s_size → Last c2s_size s2c_size reading a 0 rest
  no_write :
      (b : ℕ) (rest : List ℕ) → b < s2c_size → Last c2s_size s2c_size write_error c2s_size b rest
  in_write : (b : ℕ) (rest : List ℕ) → b < s2c_size → Last c2s_size s2c_size writing c2s_size b rest
  no_fuel : (rest : List ℕ) → Last c2s_size s2c_size running 0 0 rest

-- A server `V` has a socket, the sizes of a command and of a response, and counts the commands that it has
-- begun to read or has answered.
module _ {V : Type 0} (c2s_size s2c_size : ℕ) (socket : V → Socket) (begun : V → ℕ) where
  -- `rounds` commands were read and answered in full, and the last round was cut short.
  pub record Rounds (v : V) (e : End) (v' : V) : Type 0 where
    pub rounds : ℕ
    pub a : ℕ
    pub b : ℕ
    pub moves : Moves b's' (socket v) (socket v') (c2s_size * rounds + a) (s2c_size * rounds + b)
    pub last : Last c2s_size s2c_size e a b (socket v').stream
    pub begun_by : begun v + rounds ≤ begun v'
    pub begun_to : begun v' ≤ begun v + suc rounds

  -- Nothing was done yet.
  pub no_round : (v : V) → Rounds v running v
  no_round v = record {
    rounds = 0;
    a = 0;
    b = 0;
    moves = Moves-as (same-Moves b's' (socket v)) (omega arith) (omega arith);
    last = Last.no_fuel (socket v).stream;
    begun_by = omega arith;
    begun_to = omega arith;
  }

  -- One more round before the others.
  pub one_more :
      (v w : V) (k : End × V)
      → Moves b's' (socket v) (socket w) c2s_size s2c_size
      → begun w ≡ suc (begun v)
      → Rounds w k.0 k.1
      → Rounds v k.0 k.1
  one_more v w k m counts r = record {
    rounds = suc r.rounds;
    a = r.a;
    b = r.b;
    moves = Moves-as (Moves-both m r.moves) (omega arith) (omega arith);
    last = r.last;
    begun_by = omega (arith, counts, r.begun_by);
    begun_to = omega (arith, counts, r.begun_to);
  }

  -- A round that ends the handler.
  pub cut_short :
      (v : V) (e : End) (v' : V) (a b : ℕ)
      → Moves b's' (socket v) (socket v') a b
      → begun v ≤ begun v'
      → begun v' ≤ suc (begun v)
      → Last c2s_size s2c_size e a b (socket v').stream
      → Rounds v e v'
  cut_short v e v' a b m least most last = record {
    rounds = 0;
    a = a;
    b = b;
    moves = Moves-as m (omega arith) (omega arith);
    last = last;
    begun_by = omega (arith, least);
    begun_to = omega (arith, most);
  }

  pub after_write :
      (v w : V) (k : End × V) (status : Status) (m : ℕ)
      → Moves b's' (socket v) (socket w) c2s_size m
      → begun v ≤ begun w
      → begun w ≤ suc (begun v)
      → Part s2c_size status m
      → (m ≡ s2c_size → Rounds v k.0 k.1)
      → let r : End × V = elim status [ success ↦ k | s ↦ (write_end s, w) ] in Rounds v r.0 r.1
  unfolding write_end
  after_write v w k success _ moves least most Part.whole go = go refl
  after_write v w k error m moves least most (Part.broken _ h) go =
      cut_short v write_error w c2s_size m moves least most (Last.no_write m (socket w).stream h)
  after_write v w k waiting m moves least most (Part.unfinished _ h) go =
      cut_short v writing w c2s_size m moves least most (Last.in_write m (socket w).stream h)
  after_write v w k peer_closed m moves least most part go = elim part [ ]

  pub after_read :
      (v w : V) (k : End × V) (status : Status) (bytes rest : List ℕ)
      → Moves b's' (socket v) (socket w) (length bytes) 0
      → rest ≡ (socket w).stream
      → begun v ≤ begun w
      → begun w ≤ suc (begun v)
      → Outcome c2s_size status bytes rest
      → (length bytes ≡ c2s_size → Rounds v k.0 k.1)
      → let r : End × V = elim status [ success ↦ k | s ↦ (read_end s, w) ] in Rounds v r.0 r.1
  unfolding read_end
  after_read v w k success bytes rest moves same least most (Outcome.whole _ _ e) go = go e
  after_read v w k peer_closed bytes rest moves same least most (Outcome.ended _ h) go =
      cut_short v client_closed w (length bytes) 0 moves least most (
        subst (λ (t : List ℕ). Last c2s_size s2c_size client_closed (length bytes) 0 t) same
          (Last.at_end (length bytes) h))
  after_read v w k error bytes rest moves same least most (Outcome.broken _ _ h) go =
      cut_short v read_error w (length bytes) 0 moves least most
        (Last.no_read (length bytes) (socket w).stream h)
  after_read v w k waiting bytes rest moves same least most (Outcome.unfinished _ _ h) go =
      cut_short v reading w (length bytes) 0 moves least most
        (Last.in_read (length bytes) (socket w).stream h)
