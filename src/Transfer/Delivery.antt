-- ===== src/Transfer/Delivery.antt =====
-- The delivery of the file's name, and the whole transfer.
use mytests.Base.Text.{c_string}
use mytests.Base.{ℕ, suc, ◌+◌, ◌-◌, ◌*◌, ◌≤◌, ◌<◌, ◌≡◌, ◌≢◌, refl, ap, ◌∙◌, arith, true, false}
use mytests.Base.{Option, some, List, [], ◌∷◌, ◌++◌, map, ltb, get_or, set, take, drop, length, All}
use mytests.Base.{length-append}
use mytests.Base.Word.{u32}
use Prim.Native.Nat.{min}
use mathlib.Core.List.{append_assoc}
use mytests.Transfer.Defs.{
  ok, overrun, msg_ready, Os, Server, Transfer, copy_to, write_remote, client_post_receive,
  send_file_name, client_on_completion, max_file_name, send_message, post_receive, receive_name,
  server_on_completion, deliver_write, deliver_message, deliver, run, connected,
}
use mytests.Transfer.Chunks.{
  same, take-length, ready, run-ok, run-ready, concat, IsChunk, IsTransferred,
}

-- A file name that the server can take.
abbrev pub IsName : List ℕ → Type 0
IsName name = (0 < length name) × (length name < max_file_name) × All (λ b. b ≢ 0) name

set-end : (name rest : List ℕ) → set (name ++ (0 ∷ rest)) (length name) 0 ≡ name ++ (0 ∷ rest)
set-end [] rest = refl
set-end (b ∷ name) rest = ap (λ (t : List ℕ). b ∷ t) (set-end name rest)

c_string-name : (name rest : List ℕ) → All (λ b. b ≢ 0) name → c_string (name ++ (0 ∷ rest)) ≡ name
unfolding c_string
c_string-name [] rest h = refl
c_string-name (b ∷ name) rest (h, hs) = ground (arith, c_string-name name rest hs)

set-first : (xs : List ℕ) → get_or (set xs 0 0) 0 0 ≡ 0
set-first [] = refl
set-first (x ∷ xs) = refl

first-name :
    (name rest : List ℕ) → 0 < length name → All (λ b. b ≢ 0) name → get_or (name ++ rest) 0 0 ≢ 0
first-name [] rest pos h = absurd (omega arith)
first-name (b ∷ name) rest pos (h, hs) = h

module _ (os : Os) (addr rkey : ℕ) (name memory : List ℕ) (reads : List (Option (List ℕ)))
    (is_name : IsName name) (new : os.opens name ≡ true) where
  with_nul : List ℕ
  with_nul = name ++ (0 ∷ [])

  length-with_nul : length with_nul ≡ length name + 1
  unfolding with_nul
  length-with_nul = length-append name (0 ∷ [])

  -- The server's array before and after the name.
  array : List ℕ
  array = set (take max_file_name memory) 0 0

  array' : List ℕ
  unfolding with_nul array
  array' = with_nul ++ drop (length with_nul) array

  name_sent : Transfer
  unfolding array
  name_sent = record {
    client = record {
      buffer = copy_to memory (name ++ (0 ∷ []));
      peer_addr = addr;
      peer_rkey = rkey;
      reads = reads;
      file_name = name;
      receives = 1;
      writes = (length name + 1) ∷ [];
      disconnected = false;
    };
    server = record (connected addr rkey reads name memory).server { sends = 0 };
  }

  connected-name_sent : deliver os (connected addr rkey reads name memory) ≡ ok name_sent
  unfolding connected name_sent deliver deliver_message client_on_completion send_file_name
      write_remote client_post_receive
  connected-name_sent =
      let e : u32 (length name + 1) ≡ length name + 1 = omega (arith, is_name) in rw e refl

  unnamed : get_or array 0 0 ≡ 0
  unfolding array
  unnamed = set-first (take max_file_name memory)

  take-copy_to :
      (n : ℕ) → n ≡ length name + 1 → take n (copy_to memory (name ++ (0 ∷ []))) ≡ name ++ (0 ∷ [])
  unfolding copy_to with_nul
  take-copy_to n e =
      let full : n ≡ length (name ++ (0 ∷ [])) = omega (arith, e, length-with_nul) in
      rw full (take-length (name ++ (0 ∷ [])) _)

  named_array : set (copy_to array (name ++ (0 ∷ []))) (length name + 1 - 1) 0 ≡ array'
  unfolding copy_to array' with_nul
  named_array =
      let at_end : length name + 1 - 1 ≡ length name = omega arith in
      rw (at_end, append_assoc name (0 ∷ []) (drop (length (name ++ (0 ∷ []))) array))
        (set-end name (drop (length (name ++ (0 ∷ []))) array))

  c_string-array' : c_string array' ≡ name
  unfolding array' with_nul
  c_string-array' =
      rw (append_assoc name (0 ∷ []) (drop (length (name ++ (0 ∷ []))) array))
        (c_string-name name (drop (length (name ++ (0 ∷ []))) array) is_name.2)

  first-array' : get_or array' 0 0 ≢ 0
  unfolding array' with_nul
  first-array' =
      rw (append_assoc name (0 ∷ []) (drop (length (name ++ (0 ∷ []))) array))
        (first-name name (0 ∷ drop (length (name ++ (0 ∷ []))) array) is_name.0 is_name.2)

  receive_name-array' :
      (ctx : Server)
      → ctx.buffer ≡ copy_to memory (name ++ (0 ∷ []))
      → ctx.file_name ≡ array
      → receive_name os ctx (length name + 1)
        ≡ ok (record ctx {
          file_name = array';
          opened = some name;
          receives = ctx.receives + 1;
          msg = msg_ready;
          sends = ctx.sends + 1;
        })
  unfolding receive_name send_message post_receive
  receive_name-array' ctx b f =
      let fits : ltb max_file_name (length name + 1) ≡ false = ground (arith, is_name) in
      let n : min (length name + 1) max_file_name ≡ length name + 1 = omega (arith, is_name) in
      rw (b, f, n, take-copy_to (length name + 1) refl, named_array, c_string-array', fits, new)
        refl

  filled_buffer :
      copy_to memory (take (length name + 1) (copy_to memory (name ++ (0 ∷ []))))
      ≡ copy_to memory (name ++ (0 ∷ []))
  filled_buffer = ap (λ (t : List ℕ). copy_to memory t) (take-copy_to (length name + 1) refl)

  name_sent-ready :
      deliver os name_sent
      ≡ ok (
          ready os addr rkey name array'
            (some name)
            (copy_to memory (name ++ (0 ∷ [])))
            reads
            (copy_to memory (name ++ (0 ∷ [])))
            [])
  unfolding deliver deliver_write server_on_completion name_sent connected ready array
  name_sent-ready =
      let ctx = record (connected addr rkey reads name memory).server {
        sends = 0;
        buffer = copy_to memory (take (length name + 1) (copy_to memory (name ++ (0 ∷ []))));
        receives = 0;
      } in
      ground (
        arith,
        same addr,
        same rkey,
        unnamed,
        receive_name-array' ctx filled_buffer refl,
        filled_buffer,
      )

-- A file arrives whole: for a name of 1 to 255 bytes, none of them NUL, that `open` accepts, whatever
-- chunks of 1 to 2 ^ 32 - 1 bytes the reads give, that `write` takes in full, the transfer runs to the
-- client's disconnect within two deliveries for each chunk and six for the rest, and then the server
-- has opened a file of that name and written to it the chunks in order.
pub transfer-IsTransferred :
    (os : Os) (addr rkey : ℕ) (name memory : List ℕ) (chunks : List (List ℕ)) (fuel : ℕ)
    → IsName name
    → os.opens name ≡ true
    → All (IsChunk os) chunks
    → 2 * length chunks + 6 ≤ fuel
    → (t : Transfer) × (run os fuel (connected addr rkey (map some chunks) name memory) ≡ ok t)
      × IsTransferred name (concat chunks) t
unfolding connected name_sent
transfer-IsTransferred os addr rkey name memory chunks (suc (suc fuel)) is_name new h enough =
    let reads = map some chunks in
    let (t, e, done) =
      run-ready os addr rkey name (array' os addr rkey name memory reads is_name new)
        (first-array' os addr rkey name memory reads is_name new) chunks fuel
        (copy_to memory (name ++ (0 ∷ []))) (copy_to memory (name ++ (0 ∷ []))) [] h
        (omega arith) in
    (
      t,
      run-ok os _ _ _ refl (connected-name_sent os addr rkey name memory reads is_name new)
          ∙ run-ok os _ _ _ refl (name_sent-ready os addr rkey name memory reads is_name new)
          ∙ e,
      done,
    )
transfer-IsTransferred os addr rkey name memory chunks fuel is_name new h enough =
    absurd (omega arith)

-- A name of 256 bytes or more overruns the server's array: whatever the buffer holds, a server that
-- has no name yet and is sent more than MAX_FILE_NAME bytes writes the NUL outside `file_name`.
pub server_on_completion-overrun :
    (os : Os) (ctx : Server) (size : ℕ)
    → get_or ctx.file_name 0 0 ≡ 0
    → max_file_name < size
    → server_on_completion os ctx size ≡ overrun
unfolding server_on_completion receive_name
server_on_completion-overrun os ctx size first long = ground (arith, first)
