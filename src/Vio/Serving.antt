-- ===== src/Vio/Serving.antt =====
-- The server of mysql/vio-bench/ answers the commands of the stream one by one.
use mytests.Base.{ℕ, zero, suc, ◌+◌, ◌*◌, ◌≡◌, refl, sym, ◌∙◌, arith, inl, inr}
use mytests.Base.{List, ◌==◌, Bool-cases, replicate, ◌∷◌}
use mathlib.Core.Path.{subst}
use mytests.Vio.Defs.{waits}
use mytests.Vio.Handlers.{
  c2s_size, s2c_size, Socket, read_socket, write_socket, End, Server, is_mismatch, check_command,
  print_statistics, handler,
}
use mytests.Vio.Rounds.{Rounds, no_round, one_more, after_write, after_read}
use mytests.Vio.Moves.{Moves, Moves-as, Moves-both, read_socket-Moves, write_socket-Moves}

-- The commands that the server has begun to read.
unfoldable pub begun : Server → ℕ
begun v = 10000 * v.reports + v.count

abbrev pub Serves : Server → End → Server → Type 0
Serves = Rounds c2s_size s2c_size (λ (v : Server). v.socket) begun

pub print_statistics-same :
    (v : Server) → ((print_statistics v).socket ≡ v.socket) × (begun (print_statistics v) ≡ begun v)
unfolding begun print_statistics
print_statistics-same v = elim (Bool-cases (v.count == 10000)) [
  | inl e ↦ rw (e) (refl, ground (arith, e))
  | inr e ↦ rw (e) (refl, refl)
]

pub check_command-same :
    (bytes : List ℕ) (v : Server)
    → ((check_command bytes v).socket ≡ v.socket) × (begun (check_command bytes v) ≡ begun v)
unfolding check_command begun
check_command-same bytes v = elim (Bool-cases (is_mismatch bytes)) [
  | inl e ↦ rw (e) (refl, refl)
  | inr e ↦ rw (e) (refl, refl)
]

-- Whatever the receives, the sends and the polls do, errors included: the server takes commands of 141
-- bytes off the stream and sends 24 bytes 's' for each that it has read in full, before it reads the
-- next. It ends in the middle of a round: while it reads, with less than a command, or while it
-- writes, with less than a response; and as closed by the client only when the stream has ended. Its
-- statistics count each round once.
pub handler-Serves : (fuel : ℕ) (v : Server) → let r = handler fuel v in Serves v r.0 r.1
unfolding handler begun
handler-Serves zero v = no_round c2s_size s2c_size (λ (v : Server). v.socket) begun v
handler-Serves (suc fuel) v =
    let socket : Server → Socket = λ v. v.socket in
    let r = read_socket waits c2s_size v.socket in
    let v1 : Server = record v { socket = r.socket; count = suc v.count } in
    let v2 = check_command r.bytes v1 in
    let w = write_socket waits (b's' ∷ replicate 23 b's') v2.socket in
    let v3 : Server = record v2 { socket = w.socket } in
    let k = handler fuel (print_statistics v3) in
    let (same, counts) = check_command-same r.bytes v1 in
    let (same', counts') = print_statistics-same v3 in
    let (read, outcome) = read_socket-Moves waits c2s_size b's' v.socket (omega arith) in
    let (m, wrote, part) = write_socket-Moves waits 23 b's' v2.socket in
    let counted : begun v3 ≡ suc (begun v) = omega (arith, counts) in
    let wrote' = subst (λ (t : Socket). Moves b's' t w.socket 0 m) same wrote in
    let moved = Moves-both read wrote' in
    after_read c2s_size s2c_size socket begun v v1 _ r.status r.bytes r.socket.stream read refl
      (omega arith) (omega arith) outcome
      λ size.
        after_write c2s_size s2c_size socket begun v v3 _ w.status m
          (Moves-as moved (omega (arith, size)) (omega arith)) (omega (arith, counted))
          (omega (arith, counted)) part
          λ all_sent.
            one_more c2s_size s2c_size socket begun v (print_statistics v3) k
              (subst (λ (t : Socket). Moves b's' v.socket t c2s_size s2c_size) (sym same')
                (Moves-as moved (omega (arith, size)) (omega (arith, all_sent))))
              (counts' ∙ counted) (handler-Serves fuel (print_statistics v3))
