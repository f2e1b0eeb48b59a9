-- ===== src/Vio/Measuring.antt =====
-- The server of mysql/vio-bench2/ measures the commands that it answers.
use mytests.Base.{
  ℕ, zero, suc, ◌+◌, ◌*◌, ◌≡◌, refl, sym, arith, inl, inr, Bool-cases, ◌==◌, ◌∷◌, replicate,
}
use mathlib.Core.Path.{subst}
use mytests.Vio.Defs.{waits}
use mytests.Vio.Handlers.{bench2_size, Socket, read_socket, write_socket}
use mytests.Vio.Moves.{Moves, Moves-as, Moves-both, read_socket-Moves, write_socket-Moves}
use mytests.Vio.Rounds.{Rounds, no_round, one_more, after_write, after_read}
use mytests.Vio.Bench.{k_count, Bench, next_i, measure}

-- The commands that were measured.
unfoldable pub measured : Bench → ℕ
measured b = k_count * b.loops + b.i

next_i-same :
    (b : Bench) → ((next_i b).socket ≡ b.socket) × (measured (next_i b) ≡ suc (measured b))
unfolding next_i measured
next_i-same b = elim (Bool-cases (suc b.i == k_count)) [
  | inl e ↦ rw (e) (refl, ground (arith, e))
  | inr e ↦ rw (e) (refl, omega arith)
]

-- Whatever the calls do, errors included: after the warm-up the server of vio-bench2 takes commands of 100
-- bytes off the stream and sends 100 bytes 's' for each that it has read in full, before it reads the next. It
-- ends in the middle of a round, or with the fuel, and has counted the rounds before that, and at most one
-- more.
pub measure-Rounds :
    (fuel : ℕ) (b : Bench)
    → let r = measure fuel b in
      Rounds bench2_size bench2_size (λ (t : Bench). t.socket) measured b r.0 r.1
unfolding measure measured
measure-Rounds zero b = no_round bench2_size bench2_size (λ (t : Bench). t.socket) measured b
measure-Rounds (suc fuel) b =
    let socket : Bench → Socket = λ b. b.socket in
    let r = read_socket waits bench2_size b.socket in
    let b1 : Bench = record b { socket = r.socket } in
    let w = write_socket waits (b's' ∷ replicate 99 b's') r.socket in
    let b2 : Bench = record b1 { socket = w.socket } in
    let (same, counts) = next_i-same b2 in
    let (read, outcome) = read_socket-Moves waits bench2_size b's' b.socket (omega arith) in
    let (m, wrote, part) = write_socket-Moves waits 99 b's' r.socket in
    let moved = Moves-both read wrote in
    after_read bench2_size bench2_size socket measured b b1 _ r.status r.bytes r.socket.stream read
      refl (omega arith) (omega arith) outcome
      λ size.
        after_write bench2_size bench2_size socket measured b b2 _ w.status m
          (Moves-as moved (omega (arith, size)) (omega arith)) (omega arith) (omega arith) part
          λ all_sent.
            one_more bench2_size bench2_size socket measured b (next_i b2)
              (measure fuel (next_i b2))
              (subst (λ (t : Socket). Moves b's' b.socket t bench2_size bench2_size) (sym same)
                (Moves-as moved (omega (arith, size)) (omega (arith, all_sent))))
              counts (measure-Rounds fuel (next_i b2))
