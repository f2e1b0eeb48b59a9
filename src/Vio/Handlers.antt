-- ===== src/Vio/Handlers.antt =====
-- The handlers of mysql/vio-bench/: a server that answers commands of 141 bytes by 24 bytes, and a
-- client that sends them; and the one of the client of mysql/vio-bench2/.
use mytests.Base.{
  ℕ, zero, suc, Bool, true, false, List, [], ◌∷◌, ◌++◌, ◌==◌, if◌then◌else◌, replicate,
}
use mytests.Vio.Defs.{
  Recv, Send, Poll, Version, waits, retries, fails, Status, success, peer_closed, waiting, vio_read,
  vio_write,
}

-- _c2s_size and _s2c_size of the config.h of mysql/vio-bench/.
abbrev pub c2s_size : ℕ
c2s_size = 141

abbrev pub s2c_size : ℕ
s2c_size = 24

-- Both sizes in the config.h of mysql/vio-bench2/.
abbrev pub bench2_size : ℕ
bench2_size = 100

-- A connected socket: the bytes to come, what its calls do, and what was sent.
pub record Socket : Type 0 where
  pub stream : List ℕ
  pub recvs : List Recv
  pub sends : List Send
  pub polls : List Poll
  pub sent : List ℕ

-- A call of vio_read or vio_write on the socket: its result, the bytes that it stored, and the socket.
pub record Called : Type 0 where
  pub status : Status
  pub bytes : List ℕ
  pub socket : Socket

unfoldable pub read_socket : Version → ℕ → Socket → Called
unfolding vio_read
read_socket version size s =
    let g = vio_read version s.recvs s.polls size s.stream in
    record {
      status = g.status;
      bytes = g.bytes;
      socket = record s { stream = g.stream; recvs = g.recvs; polls = g.polls };
    }

unfoldable pub write_socket : Version → List ℕ → Socket → Called
unfolding vio_write
write_socket version buf s =
    let p = vio_write version s.sends s.polls buf in
    record {
      status = p.status;
      bytes = [];
      socket = record s { sends = p.sends; polls = p.polls; sent = s.sent ++ p.sent };
    }

-- How a handler ends; `reading` and `writing` have not returned from their call, and `running` has used
-- up the fuel.
pub data End : Type 0 where
  client_closed read_error write_error reading writing running : End

unfoldable pub read_end : Status → End
read_end peer_closed = client_closed
read_end waiting = reading
read_end _ = read_error

unfoldable pub write_end : Status → End
write_end waiting = writing
write_end _ = write_error

-- `count`, and how often the statistics and "read mismatch" were printed.
pub record Server : Type 0 where
  pub socket : Socket
  pub count : ℕ
  pub reports : ℕ
  pub mismatches : ℕ

-- The loop that checks the command leaves at the first byte that is not 'c'.
unfoldable pub is_mismatch : List ℕ → Bool
is_mismatch [] = false
is_mismatch (b ∷ bytes) = let rest = is_mismatch bytes in if b == b'c' then rest else true

unfoldable pub check_command : List ℕ → Server → Server
unfolding is_mismatch
check_command bytes v = if is_mismatch bytes then record v { mismatches = suc v.mismatches } else v

unfoldable pub print_statistics : Server → Server
print_statistics v = if v.count == 10000 then record v { count = 0; reports = suc v.reports } else v

-- The loop of the server's handler; each round takes a byte of the stream or ends.
unfoldable pub handler : ℕ → Server → End × Server
unfolding read_socket write_socket read_end write_end check_command print_statistics
handler zero v = (running, v)
handler (suc fuel) v =
    let r = read_socket waits c2s_size v.socket in
    let v1 : Server = record v { socket = r.socket; count = suc v.count } in
    elim r.status [
      | success ↦
          let v2 = check_command r.bytes v1 in
          let w = write_socket waits (replicate s2c_size b's') v2.socket in
          let v3 : Server = record v2 { socket = w.socket } in
          elim w.status [ success ↦ handler fuel (print_statistics v3) | s ↦ (write_end s, v3) ]
      | s ↦ (read_end s, v1)
    ]

-- `_s_counts[idx]` and `_error_flag`.
pub record Client : Type 0 where
  pub socket : Socket
  pub count : ℕ
  pub error_flag : Bool

-- The loop of the handler of a client, with the sizes of its config.h and its version of the two functions.
unfoldable pub client_handler :
    Version → (command_size response_size fuel : ℕ) → Client → End × Client
unfolding read_socket write_socket write_end
client_handler version command_size response_size zero c = (running, c)
client_handler version command_size response_size (suc fuel) c =
    let w = write_socket version (replicate command_size b'c') c.socket in
    elim w.status [
      | success ↦
          let r = read_socket version response_size w.socket in
          elim r.status [
            | success ↦
                client_handler version command_size response_size fuel
                  (record c { socket = r.socket; count = suc c.count })
            | waiting ↦ (reading, record c { socket = r.socket })
            | _ ↦ (read_error, record c { socket = r.socket; error_flag = true })
          ]
      | s ↦ (write_end s, record c { socket = w.socket })
    ]

-- The client of mysql/vio-bench/.
abbrev pub bench_client : ℕ → Client → End × Client
bench_client = client_handler fails c2s_size s2c_size

-- The client of mysql/vio-bench2/ tries again on EAGAIN, and has other sizes. It does not keep the count.
abbrev pub spinning_client : ℕ → Client → End × Client
spinning_client = client_handler retries bench2_size bench2_size
