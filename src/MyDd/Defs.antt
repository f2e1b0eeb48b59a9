-- ===== src/MyDd/Defs.antt =====
-- evaluate_dio, evaluate_aio, evaluate_files and main of mysql/io-bench/mydd.cc. A call that writes
-- succeeds or not, as a list says; the offsets that were asked for are kept. The count of blocks is an
-- argument, which main sets.
use mytests.Base.{ℕ, zero, suc, ◌+◌, ◌-◌, ◌*◌, ◌/◌, ◌%◌, Bool, true, false, ◌&&◌}
use mytests.Base.{List, [], ◌∷◌, ltb, ◌==◌, leb, if◌then◌else◌}
use mytests.Base.Text.{same_text}
use mytests.Base.Integer.{ℤ, pos, negsuc}

abbrev pub block_size : ℕ
block_size = 8192

abbrev pub block_count : ℕ
block_count = 524288

-- `exited` is exit(1) after a call that failed; `waiting` is in a call whose result is not known.
pub data End : Type 0 where
  finished exited waiting : End

-- The first offset of a thread.
unfoldable pub dio_start : ℕ → ℕ → ℕ → ℕ
dio_start blocks n_threads idx = blocks * block_size / n_threads * idx

unfoldable pub wrote : ℕ → End × List ℕ → End × List ℕ
wrote offset r = (r.0, offset ∷ r.1)

-- The loop of a thread with `left` rounds to go; the offsets that it has written, in order.
unfoldable pub dio_loop : ℕ → ℕ → List Bool → End × List ℕ
unfolding wrote
dio_loop zero offset calls = (finished, [])
dio_loop (suc left) offset [] = (waiting, [])
dio_loop (suc left) offset (false ∷ calls) = (exited, [])
dio_loop (suc left) offset (true ∷ calls) = wrote offset (dio_loop left (offset + block_size) calls)

-- The thread `idx` of evaluate_dio.
unfoldable pub dio_thread : ℕ → ℕ → ℕ → List Bool → End × List ℕ
unfolding dio_start dio_loop
dio_thread blocks n_threads idx calls =
    dio_loop (blocks / n_threads) (dio_start blocks n_threads idx) calls

-- The thread `idx` of evaluate_files, which writes its own file from the start, when it could open it.
unfoldable pub file_thread : ℕ → ℕ → Bool → List Bool → End × List ℕ
unfolding dio_loop
file_thread blocks n_files is_open calls =
    let run = dio_loop (blocks / n_files) 0 calls in if is_open then run else (exited, [])

-- The requests of evaluate_aio, with their offsets, the last one first.
pub record Aio : Type 0 where
  pub pending_io : ℕ
  pub sent_blocks : ℕ
  pub submitted : List ℕ

unfoldable pub sub_block : ℕ → ℕ → ℕ → ℕ
sub_block blocks depth sent = sent % depth * blocks / depth + sent / depth

unfoldable pub aio_offset : ℕ → ℕ → ℕ → ℕ
unfolding sub_block
aio_offset blocks depth sent = sub_block blocks depth sent * block_size

-- A round of the loop whose call, io_submit or io_getevents, succeeds.
unfoldable pub aio_round : ℕ → ℕ → Aio → Aio
unfolding aio_offset
aio_round blocks depth a =
    if ltb a.pending_io depth && ltb (a.sent_blocks + a.pending_io) blocks
    then record a {
      pending_io = suc a.pending_io;
      submitted = aio_offset blocks depth a.sent_blocks ∷ a.submitted;
    }
    else record a { pending_io = a.pending_io - 1; sent_blocks = suc a.sent_blocks }

unfoldable pub aio_loop : ℕ → ℕ → List Bool → Aio → End × Aio
unfolding aio_round
aio_loop blocks depth [] a = if ltb a.sent_blocks blocks then (waiting, a) else (finished, a)
aio_loop blocks depth (ok ∷ calls) a =
    let rest = aio_loop blocks depth calls (aio_round blocks depth a) in
    let called = if ok then rest else (exited, a) in
    if ltb a.sent_blocks blocks then called else (finished, a)

abbrev pub no_requests : Aio
no_requests = record { pending_io = 0; sent_blocks = 0; submitted = [] }

-- `set_up` is whether io_setup succeeds.
unfoldable pub evaluate_aio : ℕ → ℕ → Bool → List Bool → End × Aio
unfolding aio_loop
evaluate_aio blocks depth set_up calls =
    let run = aio_loop blocks depth calls no_requests in
    if set_up then run else (exited, no_requests)

-- What main runs, with the depth, or its usage.
pub data Mode : Type 0 where
  dio aio files : (depth : ℕ) → Mode
  usage : Mode

unfoldable pub depth_of : ℤ → ℕ
depth_of (pos n) = if n == 0 then 1 else n
depth_of (negsuc n) = 1

abbrev pub aio_text : List ℕ
aio_text = b'a' ∷ b'i' ∷ b'o' ∷ []

abbrev pub files_text : List ℕ
files_text = b'f' ∷ b'i' ∷ b'l' ∷ b'e' ∷ b's' ∷ []

-- `tolower`, for strcasecmp.
unfoldable pub lower : ℕ → ℕ
lower b = if leb b'A' b && leb b b'Z' then b + 32 else b

unfoldable pub lower_text : List ℕ → List ℕ
unfolding lower
lower_text [] = []
lower_text (b ∷ bs) = lower b ∷ lower_text bs

-- The arguments of main.
unfoldable pub mode : (List ℕ → ℤ) → List (List ℕ) → Mode
unfolding depth_of lower_text
mode atoi (prog ∷ num ∷ name ∷ []) =
    let depth = depth_of (atoi num) in
    if same_text (lower_text name) aio_text
    then aio depth
    else if same_text (lower_text name) files_text
    then files depth
    else dio depth
mode atoi (prog ∷ num ∷ rest) = dio (depth_of (atoi num))
mode atoi _ = usage
