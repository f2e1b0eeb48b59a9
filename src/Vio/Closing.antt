-- ===== src/Vio/Closing.antt =====
-- The server of mysql/vio-bench/ gets to the end of its stream.
use mytests.Base.{ℕ, zero, suc, ◌+◌, ◌*◌, ◌≤◌, ◌<◌, ◌≡◌, refl, ap, sym, ◌∙◌, arith, ◌⊎◌, inl, inr}
use mytests.Base.{List, ◌∷◌, ◌++◌, length, length-append, All, replicate, ◌/◌}
use mathlib.Core.Path.{subst}
use mytests.Vio.Defs.{waits, Status, success, peer_closed}
use mytests.Vio.Handlers.{
  c2s_size, s2c_size, Socket, Called, read_socket, write_socket, End, client_closed, read_end,
  write_end, Server, check_command, print_statistics, handler,
}
use mytests.Vio.Reads.{Outcome, vio_read-Reads}
use mytests.Vio.Steady.{
  IsReceiving, IsSending, IsPolling, readies, recv_agains, rooms, send_agains, ables,
  vio_read-Received, vio_write-Delivered,
}
use mytests.Vio.Rounds.{Last}
use mytests.Vio.Serving.{Serves, handler-Serves, check_command-same, print_statistics-same}

-- No call fails, each wait ends, and the calls are enough for the bytes of the stream.
pub record IsSteady (s : Socket) : Type 0 where
  pub receiving : All IsReceiving s.recvs
  pub sending : All IsSending s.sends
  pub polling_on : All IsPolling s.polls
  pub reads : length s.stream < readies s.recvs
  pub writes : length s.stream ≤ rooms s.sends
  pub ends_waits : recv_agains s.recvs + send_agains s.sends ≤ ables s.polls

abbrev response : List ℕ
response = b's' ∷ replicate 23 b's'

whole_size :
    {size : ℕ} {s : Status} {bytes rest : List ℕ}
    → Outcome size s bytes rest
    → s ≡ success
    → length bytes ≡ size
whole_size (Outcome.whole bytes rest h) e = h
whole_size (Outcome.ended bytes h) e = absurd (ground (arith, e))
whole_size (Outcome.broken bytes rest h) e = absurd (ground (arith, e))
whole_size (Outcome.unfinished bytes rest h) e = absurd (ground (arith, e))

-- A round that succeeds, after a read that does.
record Turns (s : Socket) (r : Called) : Type 0 where
  reads : r.status ≡ success
  writes : (write_socket waits response r.socket).status ≡ success
  keeps : IsSteady (write_socket waits response r.socket).socket
  takes : length (write_socket waits response r.socket).socket.stream + c2s_size ≡ length s.stream

IsSteady-turn :
    (s : Socket)
    → IsSteady s
    → let r = read_socket waits c2s_size s in (r.status ≡ peer_closed) ⊎ Turns s r
unfolding read_socket write_socket
IsSteady-turn s h =
    let r = vio_read-Reads waits s.recvs s.polls c2s_size s.stream (omega arith) in
    let got =
      vio_read-Received (send_agains s.sends) s.recvs s.polls c2s_size s.stream (omega arith)
        h.receiving h.polling_on h.reads h.ends_waits in
    let total = ap length r.in_order in
    let called = read_socket waits c2s_size s in
    let rest = called.socket in
    elim got.ends [
      | inr e ↦ inl e
      | inl (e, more) ↦
          let taken = whole_size r.outcome e in
          let sum = length-append called.bytes rest.stream in
          let put =
            vio_write-Delivered (recv_agains rest.recvs) (length rest.stream) s.sends rest.polls
              response (omega arith) h.sending got.polling_on
              (omega (arith, h.writes, total, taken, sum)) (omega (arith, got.spare)) in
          inr (record {
            reads = e;
            writes = put.ends;
            keeps = record {
              receiving = got.receiving;
              sending = put.sending;
              polling_on = put.polling_on;
              reads = more;
              writes = put.more;
              ends_waits = omega (arith, put.spare);
            };
            takes = omega (arith, total, taken, sum);
          })
    ]

-- The rest of a round.
turn :
    (fuel : ℕ) (v v2 : Server)
    → length v.socket.stream < c2s_size * suc fuel
    → ((u : Server)
        → IsSteady u.socket
        → length u.socket.stream < c2s_size * fuel
        → (handler fuel u).0 ≡ client_closed)
    → let r = read_socket waits c2s_size v.socket in
      r.socket ≡ v2.socket
      → Turns v.socket r
      → let w = write_socket waits response v2.socket in
        let v3 : Server = record v2 { socket = w.socket } in
        let k : End × Server = elim w.status [
          | success ↦ handler fuel (print_statistics v3)
          | s ↦ (write_end s, v3)
        ] in
        k.0 ≡ client_closed
turn fuel v v2 enough ih e t =
    let w = write_socket waits response v2.socket in
    let v3 : Server = record v2 { socket = w.socket } in
    let (same, counts) = print_statistics-same v3 in
    let wrote =
      subst (λ (s : Socket). (write_socket waits response s).status ≡ success) e t.writes in
    let keeps = subst (λ (s : Socket). IsSteady (write_socket waits response s).socket) e t.keeps in
    let takes =
      subst
        (λ (s : Socket).
          length (write_socket waits response s).socket.stream + c2s_size ≡ length v.socket.stream)
        e t.takes in
    rw (wrote) (
      ih (print_statistics v3) (subst IsSteady (sym same) keeps) (
        let left = ap (λ (s : Socket). length s.stream) same in omega (arith, enough, takes, left)))

handler-closed :
    (fuel : ℕ) (v : Server)
    → IsSteady v.socket
    → length v.socket.stream < c2s_size * fuel
    → (handler fuel v).0 ≡ client_closed
unfolding handler read_end
handler-closed zero v h enough = absurd (omega arith)
handler-closed (suc fuel) v h enough =
    let r = read_socket waits c2s_size v.socket in
    let v1 : Server = record v { socket = r.socket; count = suc v.count } in
    let v2 = check_command r.bytes v1 in
    let (same, counts) = check_command-same r.bytes v1 in
    elim (IsSteady-turn v.socket h) [
      | inl e ↦ rw (e, handler) refl
      | inr t ↦
          rw (t.reads, handler)
            (turn fuel v v2 enough (λ u h' le. handler-closed fuel u h' le) (sym same) t)
    ]

closed_rounds :
    (v v' : Server) (e : End)
    → Serves v e v'
    → e ≡ client_closed
    → v'.socket.sent
      ≡ v.socket.sent ++ replicate (s2c_size * (length v.socket.stream / c2s_size)) b's'
closed_rounds v v' e r is_closed =
    let total = ap length r.moves.took in
    let sum = length-append r.moves.taken v'.socket.stream in
    let (none_left, a, b) = at_end r.last is_closed in
    let rounds : s2c_size * r.rounds + r.b ≡ s2c_size * (length v.socket.stream / c2s_size) =
      omega (arith, total, sum, r.moves.size, none_left, a, b) in
    r.moves.gave ∙ ap (λ (t : ℕ). v.socket.sent ++ replicate t b's') rounds
  where
    at_end :
        {e : End} {a b : ℕ} {rest : List ℕ}
        → Last c2s_size s2c_size e a b rest
        → e ≡ client_closed
        → (length rest ≡ 0) × (a < c2s_size) × (b ≡ 0)
    at_end (Last.at_end a h) e = (refl, h, refl)
    at_end (Last.no_read a rest h) e = absurd (ground (arith, e))
    at_end (Last.in_read a rest h) e = absurd (ground (arith, e))
    at_end (Last.no_write a rest h) e = absurd (ground (arith, e))
    at_end (Last.in_write a rest h) e = absurd (ground (arith, e))
    at_end (Last.no_fuel rest) e = absurd (ground (arith, e))

-- When no call fails, each EAGAIN is followed by a poll that succeeds, and the calls are as many as the
-- bytes of the stream, then, with fuel for its commands, the server goes on until the client
-- closes, and it has sent 24 bytes 's' for each whole command of the stream.
pub handler-answers :
    (fuel : ℕ) (v : Server)
    → IsSteady v.socket
    → length v.socket.stream < c2s_size * fuel
    → let r = handler fuel v in
      (r.0 ≡ client_closed)
      × (r.1.socket.sent
          ≡ v.socket.sent ++ replicate (s2c_size * (length v.socket.stream / c2s_size)) b's')
handler-answers fuel v h enough =
    let r = handler fuel v in
    let e = handler-closed fuel v h enough in (e, closed_rounds v r.1 r.0 (handler-Serves fuel v) e)
