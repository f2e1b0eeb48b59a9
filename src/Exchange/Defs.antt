-- ===== src/Exchange/Defs.antt =====
-- rdma-common.c, rdma-client.c and rdma-server.c of rdma/02_read-write: one peer. The calls of the verbs
-- library succeed; what is posted is kept in a list, oldest first.
use mytests.Base.{Option, none, some}
use mytests.Base.{ℕ, ◌+◌, Bool, true, false, ◌&&◌, List, [], ◌∷◌, ◌++◌, ◌==◌, if◌then◌else◌}

pub data Mode : Type 0 where
  m_write m_read : Mode

-- struct message; MSG_MR has the address and the key of the sender's buffer.
pub data Message : Type 0 where
  msg_mr : (addr rkey : ℕ) → Message
  msg_done : Message

-- What is posted to the send queue: a message, or an RDMA operation on the peer's buffer.
pub data Work : Type 0 where
  send : Message → Work
  rdma_write rdma_read : (addr rkey : ℕ) → Work

-- send_state and recv_state count up from 0.
abbrev pub ss_init : ℕ
ss_init = 0

abbrev pub ss_mr_sent : ℕ
ss_mr_sent = 1

abbrev pub ss_done_sent : ℕ
ss_done_sent = 3

abbrev pub rs_init : ℕ
rs_init = 0

abbrev pub rs_mr_recv : ℕ
rs_mr_recv = 1

abbrev pub rs_done_recv : ℕ
rs_done_recv = 2

-- struct connection, with the work and the receives that are posted, and the calls of rdma_disconnect.
-- `addr` and `rkey` are of rdma_remote_mr.
pub record Connection : Type 0 where
  pub connected : Bool
  pub addr : ℕ
  pub rkey : ℕ
  pub peer_addr : ℕ
  pub peer_rkey : ℕ
  pub send_state : ℕ
  pub recv_state : ℕ
  pub posted : List Work
  pub receives : ℕ
  pub disconnects : ℕ

-- How a callback ends: normally, in `die`, or in the loop that waits for `connected`.
pub data Outcome : Type 0 where
  ok : Connection → Outcome
  died spins : Outcome

unfoldable pub post_receives : Connection → Connection
post_receives conn = record conn { receives = conn.receives + 1 }

-- register_memory, with the address and the key that it gives, and post_receives.
unfoldable pub build_connection : ℕ → ℕ → Connection
unfolding post_receives
build_connection addr rkey = post_receives (record {
  connected = false;
  addr = addr;
  rkey = rkey;
  peer_addr = 0;
  peer_rkey = 0;
  send_state = ss_init;
  recv_state = rs_init;
  posted = [];
  receives = 0;
  disconnects = 0;
})

unfoldable pub on_connect : Connection → Connection
on_connect conn = record conn { connected = true }

unfoldable pub send_message : Connection → Message → Outcome
send_message conn m =
    if conn.connected then ok (record conn { posted = conn.posted ++ (send m ∷ []) }) else spins

unfoldable pub send_mr : Connection → Outcome
unfolding send_message
send_mr conn = send_message conn (msg_mr conn.addr conn.rkey)

-- A work completion: with an error, of a receive, or of work of the send queue.
pub data Completion : Type 0 where
  failed : Completion
  received : Message → Completion
  sent : Completion

unfoldable pub rdma_work : Mode → ℕ → ℕ → Work
rdma_work m_write addr rkey = rdma_write addr rkey
rdma_work m_read addr rkey = rdma_read addr rkey

-- The second half of on_completion.
unfoldable pub advance_states : Mode → Connection → Outcome
unfolding send_message rdma_work
advance_states mode conn =
    if conn.send_state == ss_mr_sent && conn.recv_state == rs_mr_recv
    then send_message
        (record conn {
          posted = conn.posted ++ (rdma_work mode conn.peer_addr conn.peer_rkey ∷ []);
        })
        msg_done
    else if conn.send_state == ss_done_sent && conn.recv_state == rs_done_recv
    then ok (record conn { disconnects = conn.disconnects + 1 })
    else ok conn

-- The first half.
unfoldable pub note_completion : Connection → Completion → Outcome
unfolding send_mr post_receives
note_completion conn failed = died
note_completion conn (received (msg_mr addr rkey)) =
    let conn' =
      post_receives
        (record conn { recv_state = conn.recv_state + 1; peer_addr = addr; peer_rkey = rkey }) in
    if conn.send_state == ss_init then send_mr conn' else ok conn'
note_completion conn (received msg_done) = ok (record conn { recv_state = conn.recv_state + 1 })
note_completion conn sent = ok (record conn { send_state = conn.send_state + 1 })

unfoldable pub on_completion : Mode → Connection → Completion → Outcome
unfolding note_completion advance_states
on_completion mode conn wc = elim (note_completion conn wc) [
  | ok conn' ↦ advance_states mode conn'
  | died ↦ died
  | spins ↦ spins
]

-- The loop of poll_cq.
unfoldable pub poll_cq : Mode → Outcome → List Completion → Outcome
unfolding on_completion
poll_cq mode (ok conn) (wc ∷ wcs) = poll_cq mode (on_completion mode conn wc) wcs
poll_cq mode (ok conn) [] = ok conn
poll_cq mode died wcs = died
poll_cq mode spins wcs = spins

-- on_connection of the client and of the server.
unfoldable pub client_on_connection : Connection → Outcome
unfolding on_connect send_mr
client_on_connection conn = send_mr (on_connect conn)

unfoldable pub server_on_connection : Connection → Outcome
unfolding on_connect
server_on_connection conn = ok (on_connect conn)

-- The events of the connection manager.
pub data Event : Type 0 where
  addr_resolved route_resolved connect_request established disconnected unknown : Event

-- How on_event ends: with the connection that the id has, with 1, which ends the event loop, or in
-- `die`. `invalid` is an event on an id without a connection, which the callbacks do not allow for.
pub data Handled : Type 0 where
  goes_on : Option Connection → Handled
  exits dies invalid waits : Handled

unfoldable pub after_callback : Outcome → Handled
after_callback (ok conn) = goes_on (some conn)
after_callback died = dies
after_callback spins = waits

-- on_event of rdma-client.c, with the key that the registration gives.
unfoldable pub client_on_event : ℕ → ℕ → Option Connection → Event → Handled
unfolding build_connection client_on_connection after_callback
client_on_event addr rkey c addr_resolved = goes_on (some (build_connection addr rkey))
client_on_event addr rkey c route_resolved = goes_on c
client_on_event addr rkey c established = elim c [
  | none ↦ invalid
  | some conn ↦ after_callback (client_on_connection conn)
]
client_on_event addr rkey c disconnected = exits
client_on_event addr rkey c connect_request = dies
client_on_event addr rkey c unknown = dies

-- on_event of rdma-server.c.
unfoldable pub server_on_event : ℕ → ℕ → Option Connection → Event → Handled
unfolding build_connection server_on_connection after_callback
server_on_event addr rkey c connect_request = goes_on (some (build_connection addr rkey))
server_on_event addr rkey c established = elim c [
  | none ↦ invalid
  | some conn ↦ after_callback (server_on_connection conn)
]
server_on_event addr rkey c disconnected = goes_on none
server_on_event addr rkey c addr_resolved = dies
server_on_event addr rkey c route_resolved = dies
server_on_event addr rkey c unknown = dies

-- The event loop of `main`, over the events that come.
unfoldable pub event_loop : (Option Connection → Event → Handled) → Handled → List Event → Handled
event_loop on_event (goes_on c) (e ∷ events) = event_loop on_event (on_event c e) events
event_loop on_event (goes_on c) [] = goes_on c
event_loop on_event exits events = exits
event_loop on_event dies events = dies
event_loop on_event invalid events = invalid
event_loop on_event waits events = waits

-- The completions are handled in a thread of their own, on a connection that is established.
unfoldable pub complete : Mode → Handled → List Completion → Outcome
unfolding poll_cq
complete mode (goes_on (some conn)) wcs = poll_cq mode (ok conn) wcs
complete mode (goes_on none) wcs = died
complete mode exits wcs = died
complete mode dies wcs = died
complete mode invalid wcs = died
complete mode waits wcs = spins

-- An established connection of the client and of the server.
unfoldable pub client_established : ℕ → ℕ → Handled
unfolding event_loop client_on_event
client_established addr rkey =
    event_loop (client_on_event addr rkey) (goes_on none)
      (addr_resolved ∷ route_resolved ∷ established ∷ [])

unfoldable pub server_established : ℕ → ℕ → Handled
unfolding event_loop server_on_event
server_established addr rkey =
    event_loop (server_on_event addr rkey) (goes_on none) (connect_request ∷ established ∷ [])
