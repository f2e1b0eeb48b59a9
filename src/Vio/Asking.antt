-- ===== src/Vio/Asking.antt =====
-- The clients of mysql/vio-bench/ and mysql/vio-bench2/ send their commands one by one.
use mytests.Base.{ℕ, zero, suc, Bool, true, ◌+◌, ◌*◌, ◌<◌, ◌≡◌, refl, arith}
use mytests.Base.{List, ◌∷◌, length, replicate}
use mytests.Vio.Defs.{Version, Status, success, peer_closed, error, waiting}
use mytests.Vio.Handlers.{
  read_socket, write_socket, End, read_error, write_error, reading, writing, running, write_end,
  Client, client_handler,
}
use mytests.Vio.Reads.{Outcome}
use mytests.Vio.Moves.{
  Moves, same-Moves, Moves-as, Moves-both, Part, read_socket-Moves, write_socket-Moves,
}

-- The round that ends the handler has sent `a` bytes and read `b`.
pub data Last (c2s_size s2c_size : ℕ) : End → (a b : ℕ) → Type 0 where
  no_write : (a : ℕ) → a < c2s_size → Last c2s_size s2c_size write_error a 0
  in_write : (a : ℕ) → a < c2s_size → Last c2s_size s2c_size writing a 0
  no_read : (b : ℕ) → b < s2c_size → Last c2s_size s2c_size read_error c2s_size b
  in_read : (b : ℕ) → b < s2c_size → Last c2s_size s2c_size reading c2s_size b
  no_fuel : Last c2s_size s2c_size running 0 0

-- `_error_flag` is set by a read that fails, and by nothing else.
abbrev pub Flag : End → Bool → Bool → Type 0
Flag read_error was now = now ≡ true
Flag _ was now = now ≡ was

-- `rounds` commands were sent and answered, each counted, and the last round was cut short.
pub record Asks (c2s_size s2c_size : ℕ) (c : Client) (e : End) (c' : Client) : Type 0 where
  pub rounds : ℕ
  pub a : ℕ
  pub b : ℕ
  pub moves : Moves b'c' c.socket c'.socket (s2c_size * rounds + b) (c2s_size * rounds + a)
  pub last : Last c2s_size s2c_size e a b
  pub counted : c'.count ≡ c.count + rounds
  pub flag : Flag e c.error_flag c'.error_flag

module _ (c2s_size s2c_size : ℕ) where
  -- One more round before the others.
  one_more :
      (c d : Client) (k : End × Client)
      → Moves b'c' c.socket d.socket s2c_size c2s_size
      → d.count ≡ suc c.count
      → d.error_flag ≡ c.error_flag
      → Asks c2s_size s2c_size d k.0 k.1
      → Asks c2s_size s2c_size c k.0 k.1
  one_more c d k m counts same r = record {
    rounds = suc r.rounds;
    a = r.a;
    b = r.b;
    moves = Moves-as (Moves-both m r.moves) (omega arith) (omega arith);
    last = r.last;
    counted = omega (arith, counts, r.counted);
    flag = rw same at r.flag;
  }

  -- A round that ends the handler.
  cut_short :
      (c : Client) (e : End) (c' : Client) (a b : ℕ)
      → Moves b'c' c.socket c'.socket b a
      → c'.count ≡ c.count
      → Last c2s_size s2c_size e a b
      → Flag e c.error_flag c'.error_flag
      → Asks c2s_size s2c_size c e c'
  cut_short c e c' a b m counts last flag = record {
    rounds = 0;
    a = a;
    b = b;
    moves = Moves-as m (omega arith) (omega arith);
    last = last;
    counted = omega (arith, counts);
    flag = flag;
  }

  read_failed :
      (c d d' : Client) (bytes : List ℕ)
      → Moves b'c' c.socket d.socket (length bytes) c2s_size
      → d.count ≡ c.count
      → d' ≡ record d { error_flag = true }
      → length bytes < s2c_size
      → Asks c2s_size s2c_size c read_error d'
  read_failed c d d' bytes m counts set h = rw set (
      cut_short c read_error (record d { error_flag = true }) c2s_size (length bytes) m counts
        (Last.no_read (length bytes) h) refl)

  after_read :
      (c d d' : Client) (k : End × Client) (status : Status) (bytes rest : List ℕ)
      → Moves b'c' c.socket d.socket (length bytes) c2s_size
      → d.count ≡ c.count
      → d.error_flag ≡ c.error_flag
      → d' ≡ record d { error_flag = true }
      → Outcome s2c_size status bytes rest
      → (length bytes ≡ s2c_size → Asks c2s_size s2c_size c k.0 k.1)
      → let r : End × Client = elim status [
        | success ↦ k
        | waiting ↦ (reading, d)
        | _ ↦ (read_error, d')
      ] in
        Asks c2s_size s2c_size c r.0 r.1
  after_read c d d' k success bytes rest m counts flag set (Outcome.whole _ _ e) go = go e
  after_read c d d' k waiting bytes rest m counts flag set (Outcome.unfinished _ _ h) go =
      cut_short c reading d c2s_size (length bytes) m counts (Last.in_read (length bytes) h) flag
  after_read c d d' k error bytes rest m counts flag set (Outcome.broken _ _ h) go =
      read_failed c d d' bytes m counts set h
  after_read c d d' k peer_closed bytes rest m counts flag set (Outcome.ended _ h) go =
      read_failed c d d' bytes m counts set h

  after_write :
      (c d : Client) (k : End × Client) (status : Status) (m : ℕ)
      → Moves b'c' c.socket d.socket 0 m
      → d.count ≡ c.count
      → d.error_flag ≡ c.error_flag
      → Part c2s_size status m
      → (m ≡ c2s_size → Asks c2s_size s2c_size c k.0 k.1)
      → let r : End × Client = elim status [ success ↦ k | s ↦ (write_end s, d) ] in
        Asks c2s_size s2c_size c r.0 r.1
  unfolding write_end
  after_write c d k success _ moves counts flag Part.whole go = go refl
  after_write c d k error m moves counts flag (Part.broken _ h) go =
      cut_short c write_error d m 0 moves counts (Last.no_write m h) flag
  after_write c d k waiting m moves counts flag (Part.unfinished _ h) go =
      cut_short c writing d m 0 moves counts (Last.in_write m h) flag
  after_write c d k peer_closed m moves counts flag part go = elim part [ ]

-- Whatever the receives, the sends and the polls do, errors included: a client, with the sizes and the version
-- of the two functions of either program, sends its commands of bytes 'c', the next one when it has read and
-- counted a response for the one before. It ends in the middle of a round: while it writes, with less than a
-- command sent, or while it reads, with less than a response read; and it sets the error flag when a read
-- fails, but not when a write does.
pub client_handler-Asks :
    (version : Version) (m n fuel : ℕ) (c : Client)
    → let r = client_handler version (suc m) (suc n) fuel c in Asks (suc m) (suc n) c r.0 r.1
unfolding client_handler
client_handler-Asks version m n zero c = record {
  rounds = 0;
  a = 0;
  b = 0;
  moves = Moves-as (same-Moves b'c' c.socket) (omega arith) (omega arith);
  last = Last.no_fuel;
  counted = omega arith;
  flag = refl;
}
client_handler-Asks version m n (suc fuel) c =
    let w = write_socket version (b'c' ∷ replicate m b'c') c.socket in
    let r = read_socket version (suc n) w.socket in
    let c1 : Client = record c { socket = w.socket } in
    let c2 : Client = record c { socket = r.socket } in
    let next : Client = record c2 { count = suc c.count } in
    let (put, wrote, part) = write_socket-Moves version m b'c' c.socket in
    let (read, outcome) = read_socket-Moves version (suc n) b'c' w.socket (omega arith) in
    after_write (suc m) (suc n) c c1 _ w.status put wrote refl refl part λ all_sent.
      let moved = Moves-as (Moves-both wrote read) (omega arith) (omega (arith, all_sent)) in
      after_read (suc m) (suc n) c c2 (record c2 { error_flag = true }) _ r.status r.bytes
        r.socket.stream moved refl refl refl outcome
        λ size.
          one_more (suc m) (suc n) c next (client_handler version (suc m) (suc n) fuel next)
            (Moves-as moved size refl) refl refl (client_handler-Asks version m n fuel next)
