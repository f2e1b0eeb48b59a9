-- ===== src/Exchange/Completions.antt =====
-- The completions of one peer, in the orders in which they can come.
use mytests.Base.{ℕ, ◌≡◌, refl, true, List, [], ◌∷◌}
use mytests.Exchange.Defs.{
  Mode, msg_mr, msg_done, send, rdma_work, Connection, ok, post_receives, build_connection,
  on_connect, send_message, send_mr, Completion, received, sent, advance_states, note_completion,
  on_completion, poll_cq, client_on_connection, server_on_connection, complete, client_established,
  server_established, event_loop, client_on_event, server_on_event, after_callback,
}

-- `Interleave xs ys zs`: `zs` has the elements of both, each in its order.
pub data Interleave : List Completion → List Completion → List Completion → Type 0 where
  nothing : Interleave [] [] []
  left :
      (x : Completion) {xs ys zs : List Completion}
      → Interleave xs ys zs
      → Interleave (x ∷ xs) ys (x ∷ zs)
  right :
      (y : Completion) {xs ys zs : List Completion}
      → Interleave xs ys zs
      → Interleave xs (y ∷ ys) (y ∷ zs)

-- The end of an exchange: the own key, the RDMA operation on the peer's buffer and MSG_DONE are posted,
-- once each and in this order, and the connection is given up once.
abbrev pub finished : Mode → (addr rkey peer_addr peer_rkey : ℕ) → Connection
finished mode addr rkey peer_addr peer_rkey = record {
  connected = true;
  addr = addr;
  rkey = rkey;
  peer_addr = peer_addr;
  peer_rkey = peer_rkey;
  send_state = 3;
  recv_state = 2;
  posted = send (msg_mr addr rkey) ∷ rdma_work mode peer_addr peer_rkey ∷ send msg_done ∷ [];
  receives = 2;
  disconnects = 1;
}

-- What comes behind the keys: two completions of the send queue, and the peer's MSG_DONE.
abbrev pub Rest : List Completion → Type 0
Rest wcs = Interleave (sent ∷ sent ∷ []) (received msg_done ∷ []) wcs

-- The client, when the completion of its key comes before the server's key: in whatever order the
-- other completions come, it posts its key, the RDMA operation on the server's buffer and MSG_DONE, once
-- each and in this order, and disconnects once.
pub client-finished :
    (mode : Mode) (addr rkey peer_addr peer_rkey : ℕ) (wcs : List Completion)
    → Rest wcs
    → complete mode
        (client_established addr rkey)
        (sent ∷ received (msg_mr peer_addr peer_rkey) ∷ wcs)
      ≡ ok (finished mode addr rkey peer_addr peer_rkey)
unfolding poll_cq complete client_established event_loop client_on_event after_callback
    client_on_connection build_connection on_connect send_mr send_message post_receives
    on_completion note_completion advance_states
client-finished mode a r pa pr _ (left _ (left _ (right _ nothing))) = refl
client-finished mode a r pa pr _ (left _ (right _ (left _ nothing))) = refl
client-finished mode a r pa pr _ (right _ (left _ (left _ nothing))) = refl

-- The server, when the completion of its key comes before the client's MSG_DONE: in whatever order the
-- other completions come, it answers the client's key with its own, posts the RDMA operation on the
-- client's buffer and MSG_DONE, once each and in this order, and disconnects once.
pub server-finished :
    (mode : Mode) (addr rkey peer_addr peer_rkey : ℕ) (wcs : List Completion)
    → Rest wcs
    → complete mode
        (server_established addr rkey)
        (received (msg_mr peer_addr peer_rkey) ∷ sent ∷ wcs)
      ≡ ok (finished mode addr rkey peer_addr peer_rkey)
unfolding poll_cq complete server_established event_loop server_on_event after_callback
    server_on_connection build_connection on_connect send_mr send_message post_receives
    on_completion note_completion advance_states
server-finished mode a r pa pr _ (left _ (left _ (right _ nothing))) = refl
server-finished mode a r pa pr _ (left _ (right _ (left _ nothing))) = refl
server-finished mode a r pa pr _ (right _ (left _ (left _ nothing))) = refl
