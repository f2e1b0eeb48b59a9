-- ===== src/Transfer/Chunks.antt =====
-- The chunks and the end of the file, delivery by delivery.
use mytests.Base.{ℕ, suc, ◌+◌, ◌*◌, ◌^◌, ◌≤◌, ◌<◌, ◌≡◌, ◌≢◌, refl, ap, sym, ◌∙◌, arith, true, false}
use mytests.Base.{Option, some, List, [], ◌∷◌, ◌++◌, map, ◌==◌, get_or, take, drop, length, All}
use mytests.Base.Word.{u32}
use mathlib.Core.List.{append_assoc, append-nil}
use mytests.Transfer.Defs.{
  ok, msg_ready, msg_done, Os, Transfer, copy_to, write_remote, client_post_receive,
  send_next_chunk, client_on_completion, send_message, post_receive, receive_chunk,
  server_on_completion, deliver_write, deliver_message, deliver, run,
}

pub same : (n : ℕ) → (n == n) ≡ true
same n = ground arith

pub take-length : (xs ys : List ℕ) → take (length xs) (xs ++ ys) ≡ xs
take-length [] ys = refl
take-length (x ∷ xs) ys = ap (λ (t : List ℕ). x ∷ t) (take-length xs ys)

module _ (os : Os) (addr rkey : ℕ) (name file_name : List ℕ) (opened : Option (List ℕ)) where
  -- The server has asked for the next chunk.
  unfoldable pub ready : List ℕ → List (Option (List ℕ)) → List ℕ → List ℕ → Transfer
  ready cb reads sb file = record {
    client = record {
      buffer = cb;
      peer_addr = addr;
      peer_rkey = rkey;
      reads = reads;
      file_name = name;
      receives = 1;
      writes = [];
      disconnected = false;
    };
    server = record {
      buffer = sb;
      addr = addr;
      rkey = rkey;
      msg = msg_ready;
      file_name = file_name;
      opened = opened;
      file = file;
      receives = 1;
      sends = 1;
    };
  }

  -- The client has posted a chunk of `len` bytes.
  sent : List ℕ → List (Option (List ℕ)) → List ℕ → List ℕ → ℕ → Transfer
  unfolding ready
  sent cb reads sb file len = record {
    client = record (ready cb reads sb file).client { writes = len ∷ [] };
    server = record (ready cb reads sb file).server { sends = 0 };
  }

  ready-sent :
      (cb bs sb file : List ℕ) (reads : List (Option (List ℕ)))
      → length bs < 2 ^ 32
      → deliver os (ready cb (some bs ∷ reads) sb file)
        ≡ ok (sent (copy_to cb bs) reads sb file (length bs))
  unfolding ready sent deliver deliver_message client_on_completion send_next_chunk write_remote
      client_post_receive
  ready-sent cb bs sb file reads h =
      let e : u32 (length bs) ≡ length bs = omega (arith, h) in rw e refl

  sent-ready :
      (cb bs sb file : List ℕ) (reads : List (Option (List ℕ)))
      → 0 < length bs
      → get_or file_name 0 0 ≢ 0
      → os.writes bs ≡ true
      → deliver os (sent (copy_to cb bs) reads sb file (length bs))
        ≡ ok (ready (copy_to cb bs) reads (copy_to sb bs) (file ++ bs))
  unfolding ready sent deliver deliver_write server_on_completion receive_chunk send_message
      post_receive copy_to
  sent-ready cb bs sb file reads pos named w =
      let empty : (length bs == 0) ≡ false = ground arith in
      let unnamed : (get_or file_name 0 0 == 0) ≡ false = ground arith in
      ground (
        arith,
        same addr,
        same rkey,
        empty,
        unnamed,
        w,
        take-length bs (drop (length bs) cb),
        take-length bs (drop (length bs) sb),
      )

  -- The server has taken the end of the file.
  ended : List ℕ → List ℕ → List ℕ → Transfer
  unfolding ready
  ended cb sb file = record {
    client = (ready cb [] sb file).client;
    server = record (ready cb [] sb file).server { msg = msg_done; receives = 0 };
  }

  closed : List ℕ → List ℕ → List ℕ → Transfer
  unfolding ready
  closed cb sb file = record {
    client = record (ready cb [] sb file).client { receives = 0; disconnected = true };
    server = record (ready cb [] sb file).server { msg = msg_done; receives = 0; sends = 0 };
  }

  end-sent : (cb sb file : List ℕ) → deliver os (ready cb [] sb file) ≡ ok (sent cb [] sb file 0)
  unfolding ready sent deliver deliver_message client_on_completion send_next_chunk write_remote
      client_post_receive
  end-sent cb sb file = refl

  sent-ended : (cb sb file : List ℕ) → deliver os (sent cb [] sb file 0) ≡ ok (ended cb sb file)
  unfolding ready sent ended deliver deliver_write server_on_completion send_message copy_to
  sent-ended cb sb file = ground (arith, same addr, same rkey)

  ended-closed : (cb sb file : List ℕ) → deliver os (ended cb sb file) ≡ ok (closed cb sb file)
  unfolding ready ended closed deliver deliver_message client_on_completion
  ended-closed cb sb file = refl

-- The whole file.
abbrev pub concat : List (List ℕ) → List ℕ
concat [] = []
concat (c ∷ cs) = c ++ concat cs

-- What `read` can give of a file, and `write` can take.
abbrev pub IsChunk : Os → List ℕ → Type 0
IsChunk os bs = (0 < length bs) × (length bs < 2 ^ 32) × (os.writes bs ≡ true)

-- The transfer is over: the client has disconnected, and the server has the file under its name.
pub record IsTransferred (name content : List ℕ) (t : Transfer) : Type 0 where
  pub disconnected : t.client.disconnected ≡ true
  pub opened : t.server.opened ≡ some name
  pub file : t.server.file ≡ content

pub run-ok :
    (os : Os) (fuel : ℕ) (t u : Transfer)
    → t.client.disconnected ≡ false
    → deliver os t ≡ ok u
    → run os (suc fuel) t ≡ run os fuel u
unfolding run
run-ok os fuel t u e p = rw (e, run) (rw (p, run) refl)

run-closed :
    (os : Os) (fuel : ℕ) (t : Transfer) → t.client.disconnected ≡ true → run os (suc fuel) t ≡ ok t
unfolding run
run-closed os fuel t e = rw (e, run) refl

module _ (os : Os) (addr rkey : ℕ) (name array : List ℕ) (named : get_or array 0 0 ≢ 0) where
  pub run-ready :
      (chunks : List (List ℕ)) (fuel : ℕ) (cb sb file : List ℕ)
      → All (IsChunk os) chunks
      → 2 * length chunks + 4 ≤ fuel
      → (t : Transfer) × (run os fuel
            (ready os addr rkey name array (some name) cb (map some chunks) sb file)
          ≡ ok t)
        × IsTransferred name (file ++ concat chunks) t
  unfolding closed ready sent ended
  run-ready [] (suc (suc (suc (suc fuel)))) cb sb file h enough = (
    closed os addr rkey name array (some name) cb sb file,
    run-ok os _ _ _ refl (end-sent os addr rkey name array (some name) cb sb file)
        ∙ run-ok os _ _ _ refl (sent-ended os addr rkey name array (some name) cb sb file)
        ∙ run-ok os _ _ _ refl (ended-closed os addr rkey name array (some name) cb sb file)
        ∙ run-closed os fuel _ refl,
    record { disconnected = refl; opened = refl; file = sym (append-nil file) },
  )
  run-ready (bs ∷ chunks) (suc (suc fuel)) cb sb file ((pos, small, w), hs) enough =
      let (t, e, done) =
        run-ready chunks fuel (copy_to cb bs) (copy_to sb bs) (file ++ bs) hs (omega arith) in
      (
        t,
        run-ok os _ _ _ refl
              (ready-sent os addr rkey name array (some name) cb bs sb file (map some chunks) small)
            ∙ run-ok os _ _ _ refl (
                sent-ready os addr rkey name array (some name) cb bs sb file (map some chunks) pos
                  named w)
            ∙ e,
        record {
          disconnected = done.disconnected;
          opened = done.opened;
          file = done.file ∙ append_assoc file bs (concat chunks);
        },
      )
  run-ready chunks fuel cb sb file h enough = absurd (omega arith)
