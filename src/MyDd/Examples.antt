-- ===== src/MyDd/Examples.antt =====
-- Runs of mysql/io-bench/mydd.cc on small files.
use mytests.Base.{
  ℕ, zero, suc, ◌*◌, ◌≤◌, ◌≡◌, ◌≢◌, refl, arith, Bool, true, false, List, [], ◌∷◌, All, replicate,
  length,
}
use mytests.Base.Integer.{pos}
use mytests.Base.Text.{same_text}
use mytests.MyDd.Defs.{
  block_size, finished, aio, mode, aio_offset, dio_start, dio_thread, evaluate_aio, sub_block,
}
use mytests.MyDd.Requests.{IsQueue, submissions, evaluate_aio-IsQueue, evaluate_aio-finished}
use mytests.MyDd.Blocks.{request_of, sub_block-request_of}
use mytests.MyDd.Lost.{evaluate_aio-lost}
use mytests.MyDd.Regions.{Within, dio_thread-Within}

abbrev succeed : List Bool
succeed = replicate 12 true

-- Six blocks, two at a time: block 0 is written twice and block 5 is not.
six_blocks :
    (evaluate_aio 6 2 true succeed).1.submitted
    ≡ 2 * block_size ∷ 4 * block_size ∷ block_size ∷ 3 * block_size ∷ 0 ∷ 0 ∷ []
unfolding evaluate_aio
six_blocks = refl

-- Three threads on seven blocks: the second one starts inside a block, and the last block is not written.
seven_blocks : (dio_thread 7 3 1 succeed).1 ≡ 19114 ∷ 27306 ∷ []
unfolding dio_thread
seven_blocks = refl

upper_case :
    mode (λ s. pos 16) ((b'm' ∷ []) ∷ (b'1' ∷ b'6' ∷ []) ∷ (b'A' ∷ b'I' ∷ b'o' ∷ []) ∷ []) ≡ aio 16
unfolding mode same_text
upper_case = refl

evaluate_aio-IsQueue_example :
    IsQueue 6 2 (evaluate_aio 6 2 true (true ∷ false ∷ [])).1
    × ((evaluate_aio 6 2 true (true ∷ false ∷ [])).0 ≡ finished
        → (evaluate_aio 6 2 true (true ∷ false ∷ [])).1.sent_blocks ≡ 6)
evaluate_aio-IsQueue_example = evaluate_aio-IsQueue 6 2 true (true ∷ false ∷ []) (omega arith)

all_succeed : All (λ ok. ok ≡ true) succeed
all_succeed = go 12
  where
    go : (n : ℕ) → All (λ ok. ok ≡ true) (replicate n true)
    go zero = tt
    go (suc n) = (refl, go n)

evaluate_aio-finished_example :
    ((evaluate_aio 6 2 true succeed).0 ≡ finished)
    × ((evaluate_aio 6 2 true succeed).1.pending_io ≡ 0)
    × ((evaluate_aio 6 2 true succeed).1.submitted ≡ submissions 6 2 6)
evaluate_aio-finished_example =
    evaluate_aio-finished 6 2 succeed (omega arith) all_succeed (omega arith)

sub_block-request_of_example : (4 ≤ 6) × (request_of 3 2 (sub_block 6 2 1) ≡ 1)
unfolding sub_block
sub_block-request_of_example = sub_block-request_of 3 2 1 (omega arith) (omega arith)

evaluate_aio-lost_example :
    (length (evaluate_aio 6 2 true succeed).1.submitted ≡ 6)
    × All (λ offset. offset ≢ aio_offset 6 2 5) (evaluate_aio 6 2 true succeed).1.submitted
evaluate_aio-lost_example =
    evaluate_aio-lost 3 2 5 succeed (omega arith) all_succeed (omega arith) (omega arith)
      (omega arith) (omega arith)

dio_thread-Within_example :
    All (Within (dio_start 7 3 1) (dio_start 7 3 2)) (dio_thread 7 3 1 succeed).1
    × (dio_start 7 3 2 ≤ 7 * block_size)
dio_thread-Within_example = dio_thread-Within 7 3 1 2 succeed (omega arith) (omega arith)
