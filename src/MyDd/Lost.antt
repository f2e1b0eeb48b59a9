-- ===== src/MyDd/Lost.antt =====
-- The blocks that the asynchronous requests of mysql/io-bench/mydd.cc leave out.
use mytests.Base.{
  ℕ, zero, suc, ◌+◌, ◌-◌, ◌*◌, ◌≤◌, ◌<◌, ◌≡◌, ◌≢◌, refl, ap, sym, ◌∙◌, arith, Bool, true,
}
use mytests.Base.{List, length, All}
use mytests.MyDd.Defs.{sub_block, aio_offset, evaluate_aio}
use mytests.MyDd.Requests.{submissions, evaluate_aio-finished}
use mytests.MyDd.Blocks.{request_of, sub_block-request_of}

-- Two requests of one offset are the same request.
aio_offset_same :
    (size depth i k : ℕ)
    → 0 < depth
    → i < depth * size
    → k < depth * size
    → aio_offset (depth * size) depth k ≡ aio_offset (depth * size) depth i
    → k ≡ i
unfolding aio_offset
aio_offset_same size depth i k pos hi hk e =
    let same : sub_block (depth * size) depth k ≡ sub_block (depth * size) depth i =
      omega (arith, e) in
    sym (sub_block-request_of size depth k pos hk).1
    ∙ ap (request_of size depth) same
    ∙ (sub_block-request_of size depth i pos hi).1

not_submitted :
    (size depth i n : ℕ)
    → 0 < depth
    → i < depth * size
    → n ≤ depth * size
    → depth * size < i + depth
    → 0 < i
    → All
        (λ offset. offset ≢ aio_offset (depth * size) depth i)
        (submissions (depth * size) depth n)
unfolding submissions
not_submitted size depth i zero pos hi hn late some = tt
not_submitted size depth i (suc n) pos hi hn late some = (
  λ e.
      let same = aio_offset_same size depth i (suc n - depth) pos hi (omega (arith, hn, pos)) e in
      omega (arith, same, hn, late, some),
  not_submitted size depth i n pos hi (omega (arith, hn)) late some,
)

length-submissions : (blocks depth n : ℕ) → length (submissions blocks depth n) ≡ n
unfolding submissions
length-submissions blocks depth zero = refl
length-submissions blocks depth (suc n) = omega (arith, length-submissions blocks depth n)

-- When the depth divides the count of blocks and all calls succeed, the requests of the last `depth - 1`
-- blocks, in the order of evaluate_aio, are not made, although as many requests are as there are blocks.
pub evaluate_aio-lost :
    (size depth i : ℕ) (calls : List Bool)
    → 0 < depth
    → All (λ ok. ok ≡ true) calls
    → 2 * (depth * size) ≤ length calls
    → 0 < i
    → i < depth * size
    → depth * size < i + depth
    → let submitted = (evaluate_aio (depth * size) depth true calls).1.submitted in
      (length submitted ≡ depth * size)
      × All (λ offset. offset ≢ aio_offset (depth * size) depth i) submitted
evaluate_aio-lost size depth i calls pos oks enough some hi late =
    let (_, _, asked) = evaluate_aio-finished (depth * size) depth calls pos oks enough in
    rw asked (
      length-submissions (depth * size) depth (depth * size),
      not_submitted size depth i (depth * size) pos hi (omega arith) late some,
    )
