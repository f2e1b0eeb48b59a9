-- ===== src/Vio/Defs.antt =====
-- vio_wait, vio_read and vio_write of mysql/vio-bench/ and mysql/vio-bench2/. A socket is the list of what
-- its `recv`, `send` and `poll` do.
use mytests.Base.{ℕ, suc, ◌-◌, List, [], ◌∷◌, ◌++◌, ◌==◌, if◌then◌else◌, take, drop, length}
use Prim.Native.Nat.{min}

-- `ready n`: `n + 1` bytes have arrived, or all that were left when these are fewer, none at the end of
-- the stream. The others are the errors EINTR, EAGAIN and the rest.
pub data Recv : Type 0 where
  ready : (n : ℕ) → Recv
  recv_intr recv_again recv_failed : Recv

-- `room n`: the kernel takes `n + 1` bytes, or the whole of a shorter buffer.
pub data Send : Type 0 where
  room : (n : ℕ) → Send
  send_intr send_again send_failed : Send

pub data Poll : Type 0 where
  able poll_intr poll_failed : Poll

-- What a call of vio_wait leads to; `polling` waits for ever.
pub data Waited : Type 0 where
  goes_on : List Poll → Waited
  gives_up : List Poll → Waited
  polling : Waited

unfoldable pub vio_wait : List Poll → Waited
vio_wait [] = polling
vio_wait (able ∷ polls) = goes_on polls
vio_wait (poll_intr ∷ polls) = vio_wait polls
vio_wait (poll_failed ∷ polls) = gives_up polls

-- The three versions of the functions differ in what they do on EAGAIN: the servers wait, the client
-- of vio-bench2/ tries again and the one of vio-bench/ returns -1.
pub data Version : Type 0 where
  waits retries fails : Version

unfoldable pub after_again : Version → List Poll → Waited
unfolding vio_wait
after_again waits polls = vio_wait polls
after_again retries polls = goes_on polls
after_again fails polls = gives_up polls

-- The results 0, -999 and -1; `waiting` has not returned yet.
pub data Status : Type 0 where
  success peer_closed error waiting : Status

-- Only the servers tell the end of the stream from an error.
unfoldable pub closed_status : Version → Status
closed_status waits = peer_closed
closed_status _ = error

-- A return of vio_read: the bytes that it stored, and what the stream, the receives and the polls have
-- still to give.
pub record Got : Type 0 where
  pub status : Status
  pub bytes : List ℕ
  pub stream : List ℕ
  pub recvs : List Recv
  pub polls : List Poll

-- `buf += ret`: the bytes of this round stand before those of the rest.
unfoldable pub stored : List ℕ → Got → Got
stored bytes g = record g { bytes = bytes ++ g.bytes }

unfoldable pub vio_read : Version → List Recv → List Poll → ℕ → List ℕ → Got
unfolding after_again closed_status stored
vio_read version [] polls size stream = record {
  status = waiting;
  bytes = [];
  stream = stream;
  recvs = [];
  polls = polls;
}
vio_read version (ready n ∷ recvs) polls size stream =
    let ret = min (min (suc n) size) (length stream) in
    let rest =
      stored (take ret stream) (vio_read version recvs polls (size - ret) (drop ret stream)) in
    let all_read : Got = record {
      status = success;
      bytes = take ret stream;
      stream = drop ret stream;
      recvs = recvs;
      polls = polls;
    } in
    let closed : Got = record {
      status = closed_status version;
      bytes = [];
      stream = stream;
      recvs = recvs;
      polls = polls;
    } in
    if ret == size then all_read else if ret == 0 then closed else rest
vio_read version (recv_intr ∷ recvs) polls size stream = vio_read version recvs polls size stream
vio_read version (recv_again ∷ recvs) polls size stream = elim (after_again version polls) [
  | goes_on polls' ↦ vio_read version recvs polls' size stream
  | gives_up polls' ↦ record {
    status = error;
    bytes = [];
    stream = stream;
    recvs = recvs;
    polls = polls';
  }
  | polling ↦ record { status = waiting; bytes = []; stream = stream; recvs = recvs; polls = [] }
]
vio_read version (recv_failed ∷ recvs) polls size stream = record {
  status = error;
  bytes = [];
  stream = stream;
  recvs = recvs;
  polls = polls;
}

-- A return of vio_write, and what was sent.
pub record Put : Type 0 where
  pub status : Status
  pub sent : List ℕ
  pub sends : List Send
  pub polls : List Poll

unfoldable pub passed : List ℕ → Put → Put
passed bytes p = record p { sent = bytes ++ p.sent }

unfoldable pub vio_write : Version → List Send → List Poll → List ℕ → Put
unfolding after_again passed
vio_write version [] polls buf = record { status = waiting; sent = []; sends = []; polls = polls }
vio_write version (room n ∷ sends) polls buf =
    let ret = min (suc n) (length buf) in
    let rest = passed (take ret buf) (vio_write version sends polls (drop ret buf)) in
    let all_sent : Put = record { status = success; sent = buf; sends = sends; polls = polls } in
    if ret == length buf then all_sent else rest
vio_write version (send_intr ∷ sends) polls buf = vio_write version sends polls buf
vio_write version (send_again ∷ sends) polls buf = elim (after_again version polls) [
  | goes_on polls' ↦ vio_write version sends polls' buf
  | gives_up polls' ↦ record { status = error; sent = []; sends = sends; polls = polls' }
  | polling ↦ record { status = waiting; sent = []; sends = sends; polls = [] }
]
vio_write version (send_failed ∷ sends) polls buf = record {
  status = error;
  sent = [];
  sends = sends;
  polls = polls;
}
