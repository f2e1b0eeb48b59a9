-- ===== src/Exchange/Examples.antt =====
-- An exchange, and the theorems there.
use mytests.Base.{ℕ, true, refl, ◌≡◌, List, [], ◌∷◌}
use mytests.Exchange.Defs.{
  m_write, m_read, msg_mr, msg_done, send, Connection, Completion, received, sent, ok, complete,
  client_established, server_established, Work, Outcome, died, spins, rdma_work, poll_cq,
  event_loop, client_on_event, server_on_event, after_callback, client_on_connection,
  server_on_connection, build_connection, on_connect, send_mr, send_message, post_receives,
  on_completion, note_completion, advance_states,
}
use mytests.Exchange.Completions.{
  left, right, nothing, Rest, finished, client-finished, server-finished,
}
use mytests.Exchange.Early.{early_key-twice}

abbrev rest : List Completion
rest = sent ∷ received msg_done ∷ sent ∷ []

rest-Rest : Rest rest
rest-Rest = left _ (right _ (left _ nothing))

client-finished_example :
    complete m_write (client_established 0x1000 1) (sent ∷ received (msg_mr 0x2000 2) ∷ rest)
    ≡ ok (finished m_write 0x1000 1 0x2000 2)
client-finished_example = client-finished m_write 0x1000 1 0x2000 2 rest rest-Rest

server-finished_example :
    complete m_read (server_established 0x2000 2) (received (msg_mr 0x1000 1) ∷ sent ∷ rest)
    ≡ ok (finished m_read 0x2000 2 0x1000 1)
server-finished_example = server-finished m_read 0x2000 2 0x1000 1 rest rest-Rest

-- The client after the early key and the completion of one of its sends.
abbrev early : Connection
early = record {
  connected = true;
  addr = 0x1000;
  rkey = 1;
  peer_addr = 0x2000;
  peer_rkey = 2;
  send_state = 1;
  recv_state = 1;
  posted =
      send (msg_mr 0x1000 1)
      ∷ send (msg_mr 0x1000 1)
      ∷ rdma_work m_write 0x2000 2
      ∷ send msg_done
      ∷ [];
  receives = 2;
  disconnects = 0;
}

early_run :
    complete m_write (client_established 0x1000 1) (received (msg_mr 0x2000 2) ∷ sent ∷ [])
    ≡ ok early
unfolding poll_cq complete client_established event_loop client_on_event after_callback
    client_on_connection build_connection on_connect send_mr send_message post_receives
    on_completion note_completion advance_states rdma_work
early_run = refl

early_key-twice_example :
    (more : List Work) × (early.posted ≡ send (msg_mr 0x1000 1) ∷ send (msg_mr 0x1000 1) ∷ more)
early_key-twice_example = early_key-twice m_write 0x1000 1 0x2000 2 (sent ∷ []) early early_run

-- What the server has posted, and how often it has disconnected.
ending : Outcome → List Work × ℕ
ending (ok conn) = (conn.posted, conn.disconnects)
ending died = ([], 0)
ending spins = ([], 0)

-- When it sees the client's MSG_DONE before the completion of its key, it posts nothing but the key.
late_server :
    ending (
      complete m_write
        (server_established 0x2000 2)
        (received (msg_mr 0x1000 1) ∷ received msg_done ∷ sent ∷ []))
    ≡ (send (msg_mr 0x2000 2) ∷ [], 0)
unfolding ending poll_cq complete server_established event_loop server_on_event after_callback
    server_on_connection build_connection on_connect send_mr send_message post_receives
    on_completion note_completion advance_states
late_server = refl
