-- ===== src/Vio/Examples.antt =====
-- Runs of the sockets of mysql/vio-bench/.
use mytests.Base.{
  ℕ, zero, suc, ◌≡◌, refl, arith, false, List, [], ◌∷◌, ◌++◌, replicate, ◌*◌, ◌/◌, length, All,
}
use mytests.Vio.Defs.{
  ready, recv_intr, recv_again, room, send_intr, send_again, able, poll_intr, waits, fails,
  vio_read, vio_write,
}
use mytests.Vio.Handlers.{
  Socket, client_closed, writing, Server, handler, Client, client_handler, bench_client, s2c_size,
  c2s_size, bench2_size,
}
use mytests.Vio.Bench.{warm_up, Bench, measure}
use mytests.Vio.Rounds.{Rounds}
use mytests.Vio.Measuring.{measured, measure-Rounds}
use mytests.Vio.Reads.{Reads, vio_read-Reads}
use mytests.Vio.Writes.{Writes, vio_write-Writes}
use mytests.Vio.Serving.{Serves, handler-Serves}
use mytests.Vio.Asking.{Asks, client_handler-Asks}
use mytests.Vio.Closing.{IsSteady, handler-answers}
use mytests.Vio.Steady.{IsReceiving, IsSending, readies, recv_agains, rooms, send_agains, ables}
use mytests.Vio.Together.{InStep, sessions-InStep}

-- One command arrives in two parts, after EAGAIN; then the client closes.
abbrev served : Socket
served = record {
  stream = replicate 141 b'c';
  recvs = recv_again ∷ ready 99 ∷ recv_intr ∷ ready 99 ∷ ready 0 ∷ [];
  sends = send_again ∷ room 9 ∷ room 99 ∷ [];
  polls = poll_intr ∷ able ∷ able ∷ [];
  sent = [];
}

abbrev new_server : Server
new_server = record { socket = served; count = 0; reports = 0; mismatches = 0 }

-- The client sends a command in two parts, reads its response, and blocks in the next command.
abbrev new_client : Client
new_client = record {
  socket = record {
    stream = replicate 24 b's';
    recvs = ready 9 ∷ recv_intr ∷ ready 99 ∷ [];
    sends = send_intr ∷ room 99 ∷ room 99 ∷ [];
    polls = [];
    sent = [];
  };
  count = 0;
  error_flag = false;
}

server_ends : (handler 2 new_server).0 ≡ client_closed
unfolding handler
server_ends = refl

server_sends : (handler 2 new_server).1.socket.sent ≡ replicate 24 b's'
unfolding handler
server_sends = refl

client_ends : (bench_client 2 new_client).0 ≡ writing
unfolding client_handler
client_ends = refl

client_sends : (bench_client 2 new_client).1.socket.sent ≡ replicate 141 b'c'
unfolding client_handler
client_sends = refl

vio_read-Reads_example :
    Reads 3
      (1 ∷ 2 ∷ 3 ∷ 4 ∷ [])
      (vio_read waits (ready 0 ∷ recv_again ∷ ready 7 ∷ []) (able ∷ []) 3 (1 ∷ 2 ∷ 3 ∷ 4 ∷ []))
vio_read-Reads_example =
    vio_read-Reads waits (ready 0 ∷ recv_again ∷ ready 7 ∷ []) (able ∷ []) 3 (1 ∷ 2 ∷ 3 ∷ 4 ∷ [])
      (omega arith)

vio_write-Writes_example :
    Writes
      (1 ∷ 2 ∷ 3 ∷ [])
      (vio_write waits (room 0 ∷ send_again ∷ room 7 ∷ []) (able ∷ []) (1 ∷ 2 ∷ 3 ∷ []))
vio_write-Writes_example =
    vio_write-Writes waits (room 0 ∷ send_again ∷ room 7 ∷ []) (able ∷ []) 1 (2 ∷ 3 ∷ [])

handler-Serves_example : Serves new_server (handler 2 new_server).0 (handler 2 new_server).1
handler-Serves_example = handler-Serves 2 new_server

client_handler-Asks_example :
    Asks c2s_size s2c_size new_client (bench_client 2 new_client).0 (bench_client 2 new_client).1
client_handler-Asks_example = client_handler-Asks fails 140 23 2 new_client

sessions-InStep_example :
    InStep
      (bench_client 2 new_client).1.count
      (bench_client 2 new_client).1.socket.sent
      (handler 2 new_server).1.socket.sent
    × ((handler 2 new_server).1.mismatches ≡ 0)
unfolding handler client_handler
sessions-InStep_example = sessions-InStep 2 2 new_server new_client [] [] refl refl refl refl refl

-- A stream of one command of which each byte has its receive.
abbrev one_command : List ℕ
one_command = replicate 141 b'c'

abbrev steady : Socket
steady = record {
  stream = one_command;
  recvs = recv_again ∷ replicate 142 (ready 0);
  sends = send_intr ∷ replicate 141 (room 0);
  polls = poll_intr ∷ able ∷ [];
  sent = [];
}

abbrev steady_server : Server
steady_server = record { socket = steady; count = 0; reports = 0; mismatches = 0 }

All-replicate : {A : Type 0} (P : A → Type 0) (n : ℕ) (a : A) → P a → All P (replicate n a)
All-replicate P zero a h = tt
All-replicate P (suc n) a h = (h, All-replicate P n a h)

steady-IsSteady : IsSteady steady
unfolding readies recv_agains rooms send_agains ables
steady-IsSteady = record {
  receiving = (tt, All-replicate IsReceiving 142 (ready 0) tt);
  sending = (tt, All-replicate IsSending 141 (room 0) tt);
  polling_on = (tt, (tt, tt));
  reads = omega arith;
  writes = omega arith;
  ends_waits = omega arith;
}

handler-answers_example :
    ((handler 2 steady_server).0 ≡ client_closed)
    × ((handler 2 steady_server).1.socket.sent
        ≡ [] ++ replicate (s2c_size * (length one_command / c2s_size)) b's')
handler-answers_example = handler-answers 2 steady_server steady-IsSteady (omega arith)

-- A client that closes during the warm-up is sent responses to no command.
warms_up_for_none :
    (warm_up 2 (record {
      stream = [];
      recvs = ready 0 ∷ ready 0 ∷ [];
      sends = room 99 ∷ room 99 ∷ [];
      polls = [];
      sent = [];
    })).1.sent
    ≡ replicate 200 b's'
unfolding warm_up
warms_up_for_none = refl

-- A command of 100 bytes in two parts, and its response in two parts.
abbrev new_bench : Bench
new_bench = record {
  socket = record {
    stream = replicate 100 b'c';
    recvs = recv_again ∷ ready 59 ∷ recv_intr ∷ ready 99 ∷ ready 0 ∷ [];
    sends = send_again ∷ room 9 ∷ room 99 ∷ [];
    polls = poll_intr ∷ able ∷ able ∷ [];
    sent = [];
  };
  i = 0;
  loops = 0;
}

bench_sends : (measure 2 new_bench).1.socket.sent ≡ replicate 100 b's'
unfolding measure
bench_sends = refl

measure-Rounds_example :
    Rounds bench2_size bench2_size
      (λ (t : Bench). t.socket)
      measured
      new_bench
      (measure 2 new_bench).0
      (measure 2 new_bench).1
measure-Rounds_example = measure-Rounds 2 new_bench
