-- ===== src/Exchange/Early.antt =====
-- The client of rdma/02_read-write/ when the server's key comes before the completion of its own.
use mytests.Base.{ℕ, ◌+◌, ◌&&◌, ◌==◌, ◌≡◌, refl, sym, ◌∙◌, inl, inr, Bool-cases}
use mytests.Base.{List, [], ◌∷◌, ◌++◌}
use mathlib.Core.List.{append_assoc, append-nil}
use mathlib.Core.Path.{subst}
use mytests.Exchange.Defs.{
  Mode, Message, msg_mr, msg_done, Work, send, rdma_work, Connection, Outcome, ok, died, spins,
  post_receives, send_message, send_mr, Completion, failed, received, sent, advance_states,
  note_completion, on_completion, poll_cq, complete, client_established, event_loop,
  client_on_event, after_callback, client_on_connection, build_connection, on_connect, ss_init,
  ss_mr_sent, ss_done_sent, rs_mr_recv, rs_done_recv,
}

-- Work that was posted stays posted.
abbrev Grows : List Work → Outcome → Type 0
Grows posted (ok conn) = (more : List Work) × (conn.posted ≡ posted ++ more)
Grows posted died = Unit
Grows posted spins = Unit

-- What grows from more work grows from less.
Grows-less : (posted more : List Work) (r : Outcome) → Grows (posted ++ more) r → Grows posted r
Grows-less posted more (ok conn) (rest, e) = (more ++ rest, e ∙ append_assoc posted more rest)
Grows-less posted more died h = tt
Grows-less posted more spins h = tt

same-Grows : (conn : Connection) → Grows conn.posted (ok conn)
same-Grows conn = ([], sym (append-nil conn.posted))

send_message-Grows : (conn : Connection) (m : Message) → Grows conn.posted (send_message conn m)
unfolding send_message
send_message-Grows conn m = elim (Bool-cases conn.connected) [
  | inl e ↦ rw (e) (send m ∷ [], refl)
  | inr e ↦ rw (e) tt
]

advance_states-Grows :
    (mode : Mode) (conn : Connection) → Grows conn.posted (advance_states mode conn)
unfolding advance_states
advance_states-Grows mode conn =
    elim (Bool-cases (conn.send_state == ss_mr_sent && conn.recv_state == rs_mr_recv)) [
      | inl e ↦
          let work = rdma_work mode conn.peer_addr conn.peer_rkey in
          let working : Connection = record conn { posted = conn.posted ++ (work ∷ []) } in
          rw (e) (
            Grows-less conn.posted (work ∷ []) (send_message working msg_done)
              (send_message-Grows working msg_done))
      | inr e ↦
          elim (Bool-cases (conn.send_state == ss_done_sent && conn.recv_state == rs_done_recv)) [
            | inl k ↦ rw (e, k) ([], sym (append-nil conn.posted))
            | inr k ↦ rw (e, k) (same-Grows conn)
          ]
    ]

note_completion-Grows :
    (conn : Connection) (wc : Completion) → Grows conn.posted (note_completion conn wc)
unfolding note_completion send_mr post_receives
note_completion-Grows conn failed = tt
note_completion-Grows conn (received (msg_mr addr rkey)) =
    let conn' : Connection =
      post_receives
        (record conn { recv_state = conn.recv_state + 1; peer_addr = addr; peer_rkey = rkey }) in
    elim (Bool-cases (conn.send_state == ss_init)) [
      | inl e ↦ rw (e) (send_message-Grows conn' (msg_mr conn.addr conn.rkey))
      | inr e ↦ rw (e) (same-Grows conn')
    ]
note_completion-Grows conn (received msg_done) = ([], sym (append-nil conn.posted))
note_completion-Grows conn sent = ([], sym (append-nil conn.posted))

then_advance :
    (mode : Mode) (posted : List Work) (r : Outcome)
    → Grows posted r
    → Grows posted (elim r [ ok conn ↦ advance_states mode conn | died ↦ died | spins ↦ spins ])
then_advance mode posted (ok conn) (more, e) = Grows-less posted more (advance_states mode conn) (
    subst (λ (t : List Work). Grows t (advance_states mode conn)) e
      (advance_states-Grows mode conn))
then_advance mode posted died h = tt
then_advance mode posted spins h = tt

poll_cq-Grows :
    (mode : Mode) (posted : List Work) (r : Outcome) (wcs : List Completion)
    → Grows posted r
    → Grows posted (poll_cq mode r wcs)
unfolding poll_cq on_completion
poll_cq-Grows mode posted (ok conn) [] h = h
poll_cq-Grows mode posted (ok conn) (wc ∷ wcs) (more, e) =
    poll_cq-Grows mode posted (on_completion mode conn wc) wcs (
      then_advance mode posted (note_completion conn wc) (
        Grows-less posted more (note_completion conn wc) (
          subst (λ (t : List Work). Grows t (note_completion conn wc)) e
            (note_completion-Grows conn wc))))
poll_cq-Grows mode posted died wcs h = tt
poll_cq-Grows mode posted spins wcs h = tt

-- When the client sees the server's key before the completion of its own, then, whatever completions follow,
-- if it goes on it has posted its key twice before all other work.
pub early_key-twice :
    (mode : Mode) (addr rkey peer_addr peer_rkey : ℕ) (wcs : List Completion) (conn : Connection)
    → complete mode (client_established addr rkey) (received (msg_mr peer_addr peer_rkey) ∷ wcs)
      ≡ ok conn
    → (more : List Work) × (conn.posted ≡ send (msg_mr addr rkey) ∷ send (msg_mr addr rkey) ∷ more)
unfolding poll_cq complete client_established event_loop client_on_event after_callback
    client_on_connection build_connection on_connect send_mr send_message post_receives
    on_completion note_completion advance_states
early_key-twice mode addr rkey peer_addr peer_rkey wcs conn e =
    let key = send (msg_mr addr rkey) in
    let first =
      complete mode (client_established addr rkey) (received (msg_mr peer_addr peer_rkey) ∷ []) in
    subst (λ (r : Outcome). Grows (key ∷ key ∷ []) r) e
      (poll_cq-Grows mode (key ∷ key ∷ []) first wcs ([], refl))
