-- ===== src/Vio/Bench.antt =====
-- The handler of the server of mysql/vio-bench2/, which warms up before it measures.
use mytests.Base.{ℕ, zero, suc, ◌==◌, if◌then◌else◌, replicate}
use mytests.Vio.Defs.{waits, success, waiting}
use mytests.Vio.Handlers.{
  bench2_size, Socket, read_socket, write_socket, End, reading, writing, running, read_end,
  write_end,
}

-- The warm-up makes its calls whatever they return.
unfoldable pub warm_up : ℕ → Socket → End × Socket
unfolding read_socket write_socket
warm_up zero s = (running, s)
warm_up (suc left) s =
    let r = read_socket waits bench2_size s in
    let w = write_socket waits (replicate bench2_size b's') r.socket in
    elim r.status [
      | waiting ↦ (reading, r.socket)
      | _ ↦ elim w.status [ waiting ↦ (writing, w.socket) | _ ↦ warm_up left w.socket ]
    ]

abbrev pub k_count : ℕ
k_count = 50000

-- `i` of the `for`, and `loops`, which is printed with the times.
pub record Bench : Type 0 where
  pub socket : Socket
  pub i : ℕ
  pub loops : ℕ

-- The end of a round, and of the `for` after the last one.
unfoldable pub next_i : Bench → Bench
next_i b =
    if suc b.i == k_count then record b { i = 0; loops = suc b.loops } else record b { i = suc b.i }

-- The two loops; each round takes a byte of the stream or ends.
unfoldable pub measure : ℕ → Bench → End × Bench
unfolding read_socket write_socket read_end write_end next_i
measure zero b = (running, b)
measure (suc fuel) b =
    let r = read_socket waits bench2_size b.socket in
    let b1 : Bench = record b { socket = r.socket } in
    elim r.status [
      | success ↦
          let w = write_socket waits (replicate bench2_size b's') b1.socket in
          let b2 : Bench = record b1 { socket = w.socket } in
          elim w.status [ success ↦ measure fuel (next_i b2) | s ↦ (write_end s, b2) ]
      | s ↦ (read_end s, b1)
    ]

unfoldable pub bench_handler : ℕ → Socket → End × Bench
unfolding warm_up measure
bench_handler fuel s =
    let w = warm_up 1000 s in
    let b : Bench = record { socket = w.1; i = 0; loops = 0 } in
    elim w.0 [ running ↦ measure fuel b | e ↦ (e, b) ]
