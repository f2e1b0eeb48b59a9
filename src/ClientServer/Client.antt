-- ===== src/ClientServer/Client.antt =====
-- The client of tlpi/client-server.c.
use mytests.Base.{ℕ, Bool, true, false, ◌||◌, List, [], ◌∷◌, ◌++◌, ◌==◌, if◌then◌else◌, length}
use mytests.ClientServer.Writen.{Write, writen}

-- What a non-blocking `read` does: bytes, of which none is the end of the stream, EINTR, EAGAIN, or
-- another error.
pub data Read : Type 0 where
  got : List ℕ → Read
  eintr eagain failed : Read

-- One direction: what its reads and writes do, and what was written.
pub record Stream : Type 0 where
  pub reads : List Read
  pub writes : List Write
  pub copied : List ℕ

-- How the inner loop ends: on EAGAIN, or with `err` set. `blocked` is no end of the C code: nothing is
-- known of the calls that it would still make.
pub data Pumped : Type 0 where
  drained error blocked : Stream → Pumped

-- What one call of writen leads to: the next read, or the end of the loop.
pub data Step : Type 0 where
  goes_on : Stream → Step
  stops : Pumped → Step

unfoldable pub after_writen : ℕ → Stream → Bool → ℕ → Step
after_writen ret s blocks written =
    if blocks then stops (blocked s) else if written == ret then goes_on s else stops (error s)

-- The loops that copy from stdin to the socket, and from the socket to stdout.
unfoldable pub pump_loop : List Read → List Write → List ℕ → Pumped
unfolding after_writen
pump_loop [] writes copied = blocked (record { reads = []; writes = writes; copied = copied })
pump_loop (eintr ∷ reads) writes copied = pump_loop reads writes copied
pump_loop (eagain ∷ reads) writes copied =
    drained (record { reads = reads; writes = writes; copied = copied })
pump_loop (failed ∷ reads) writes copied =
    error (record { reads = reads; writes = writes; copied = copied })
pump_loop (got [] ∷ reads) writes copied =
    error (record { reads = reads; writes = writes; copied = copied })
pump_loop (got (b ∷ bytes) ∷ reads) writes copied =
    let w = writen writes (b ∷ bytes) in
    let s : Stream = record { reads = reads; writes = w.writes; copied = copied ++ w.sent } in
    elim (after_writen (length (b ∷ bytes)) s w.blocks w.written) [
      | goes_on s' ↦ pump_loop reads s'.writes s'.copied
      | stops p ↦ p
    ]

-- What a `poll` does: EINTR or EAGAIN, a failure, or the events of both descriptors; `hung_up` is
-- POLLHUP or POLLERR of one of them.
pub data Poll : Type 0 where
  again broken : Poll
  ready : (stdin_in socket_in hung_up : Bool) → Poll

pub record Client : Type 0 where
  pub to_socket : Stream
  pub to_stdout : Stream

-- How the client ends; `polling` waits for more.
pub data End : Type 0 where
  ended polling : End

-- A direction in one round of the client: the stream, whether `err` is set, whether it waits.
pub record Side : Type 0 where
  pub stream : Stream
  pub err : Bool
  pub waits : Bool

unfoldable pub side_of : Pumped → Side
side_of (drained s) = record { stream = s; err = false; waits = false }
side_of (error s) = record { stream = s; err = true; waits = false }
side_of (blocked s) = record { stream = s; err = false; waits = true }

unfoldable pub pump : Bool → Stream → Side
unfolding pump_loop side_of
pump ready_in s =
    if ready_in
    then side_of (pump_loop s.reads s.writes s.copied)
    else record { stream = s; err = false; waits = false }

-- The loop of the client, over what `poll` does. The socket is looked at also when stdin failed.
unfoldable pub client : List Poll → Client → End × Client
unfolding pump
client [] c = (polling, c)
client (again ∷ polls) c = client polls c
client (broken ∷ polls) c = (ended, c)
client (ready stdin_in socket_in hung_up ∷ polls) c =
    let a = pump stdin_in c.to_socket in
    let b = if a.waits then pump false c.to_stdout else pump socket_in c.to_stdout in
    let c' : Client = record { to_socket = a.stream; to_stdout = b.stream } in
    let rest = client polls c' in
    if a.waits || b.waits
    then (polling, c')
    else if hung_up || a.err || b.err
    then (ended, c')
    else rest
