-- ===== src/Vio/Together.antt =====
-- A client and the server of mysql/vio-bench/, each with what the other sends.
use mytests.Base.{ℕ, suc, ◌*◌, ◌≤◌, ◌<◌, ◌≡◌, ap, ◌∙◌, arith}
use mytests.Base.{List, [], ◌++◌, length, length-append, replicate}
use mathlib.Core.List.{append-nil}
use mytests.Vio.Defs.{fails}
use mytests.Vio.Handlers.{c2s_size, s2c_size, End, Socket, Server, Client, handler, bench_client}
use mytests.Vio.Moves.{Moves}
use mytests.Vio.Writes.{replicate-begin}
use mytests.Vio.Serving.{handler-Serves}
use mytests.Vio.Rounds
use mytests.Vio.Asking.{Asks, client_handler-Asks}
use mytests.Vio.Asking
use mytests.Vio.Checks.{handler-mismatches}

-- What a socket that had sent nothing has read and sent.
moved_sizes :
    (byte : ℕ) (s s' : Socket) (got put : ℕ)
    → s.sent ≡ []
    → Moves byte s s' got put
    → (got ≤ length s.stream) × (length s'.sent ≡ put) × (s'.sent ≡ replicate put byte)
moved_sizes byte s s' got put e m =
    let sent : s'.sent ≡ replicate put byte =
      m.gave ∙ ap (λ (t : List ℕ). t ++ replicate put byte) e in
    let total = ap length m.took in
    let sum = length-append m.taken s'.stream in
    let both = replicate-begin put byte s'.sent [] (append-nil s'.sent ∙ sent) in
    (omega (arith, total, sum, m.size), omega (arith, both.1), sent)

-- The last round of the server writes no larger a part of a response than it has read of a command, and
-- that of the client ends with at most one command.
server-Last :
    {e : End} {a b : ℕ} {rest : List ℕ}
    → Rounds.Last c2s_size s2c_size e a b rest
    → c2s_size * b ≤ s2c_size * a
server-Last (Rounds.Last.at_end a h) = omega arith
server-Last (Rounds.Last.no_read a rest h) = omega arith
server-Last (Rounds.Last.in_read a rest h) = omega arith
server-Last (Rounds.Last.no_write b rest h) = omega (arith, h)
server-Last (Rounds.Last.in_write b rest h) = omega (arith, h)
server-Last (Rounds.Last.no_fuel rest) = omega arith

client-Last :
    {e : End} {a b : ℕ} → Asking.Last c2s_size s2c_size e a b → (a ≤ c2s_size) × (b < s2c_size)
client-Last (Asking.Last.no_write a h) = (omega (arith, h), omega arith)
client-Last (Asking.Last.in_write a h) = (omega (arith, h), omega arith)
client-Last (Asking.Last.no_read b h) = (omega arith, h)
client-Last (Asking.Last.in_read b h) = (omega arith, h)
client-Last Asking.Last.no_fuel = (omega arith, omega arith)

-- What the two sides have sent when the client has counted `count` responses.
pub record InStep (count : ℕ) (commands responses : List ℕ) : Type 0 where
  pub asked : c2s_size * count ≤ length commands
  pub one_ahead : length commands ≤ c2s_size * suc count
  pub answered : s2c_size * count ≤ length responses
  pub one_behind : length responses ≤ s2c_size * suc count

-- A client and a server of vio-bench that start together, where the stream of each is a beginning of what
-- the other sends: whatever their calls do, errors included, the client has sent the commands of the responses
-- that it has counted and at most one more, the server has sent these responses and at most one more, and the
-- server has reported no mismatch.
pub sessions-InStep :
    (n m : ℕ) (v : Server) (c : Client) (lost_commands lost_responses : List ℕ)
    → v.socket.sent ≡ []
    → c.socket.sent ≡ []
    → c.count ≡ 0
    → v.socket.stream ++ lost_commands ≡ (bench_client m c).1.socket.sent
    → c.socket.stream ++ lost_responses ≡ (handler n v).1.socket.sent
    → let v' = (handler n v).1 in
      let c' = (bench_client m c).1 in
      InStep c'.count c'.socket.sent v'.socket.sent × (v'.mismatches ≡ v.mismatches)
sessions-InStep n m v c lost_commands lost_responses ev ec zero_count commands responses =
    let r = handler n v in
    let q = bench_client m c in
    let s = handler-Serves n v in
    let a = client_handler-Asks fails 140 23 m c in
    let (took_s, gave_s, text_s) = moved_sizes b's' v.socket r.1.socket _ _ ev s.moves in
    let (took_a, gave_a, text_a) = moved_sizes b'c' c.socket q.1.socket _ _ ec a.moves in
    let server_part = server-Last s.last in
    let (client_part, client_got) = client-Last a.last in
    let to_server = ap length commands ∙ gave_a in
    let to_client = ap length responses ∙ gave_s in
    let sum_s = length-append v.socket.stream lost_commands in
    let sum_c = length-append c.socket.stream lost_responses in
    let only_c = replicate-begin _ b'c' v.socket.stream lost_commands (commands ∙ text_a) in
    (
      record {
        asked = omega (arith, gave_a, a.counted, zero_count);
        one_ahead = omega (arith, gave_a, a.counted, zero_count, client_part);
        answered = omega (arith, a.counted, zero_count, took_a, to_client, sum_c, gave_s);
        one_behind = omega (
          arith, gave_s, took_s, server_part, to_server, sum_s, client_part, a.counted, zero_count,
        );
      },
      handler-mismatches n (length v.socket.stream) v only_c.0,
    )
