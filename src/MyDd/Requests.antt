-- ===== src/MyDd/Requests.antt =====
-- The asynchronous requests of mysql/io-bench/mydd.cc.
use mytests.Base.{ℕ, zero, suc, ◌+◌, ◌-◌, ◌*◌, ◌≤◌, ◌<◌, ◌≡◌, refl, ap, ◌∙◌, arith, ◌⊎◌, inl, inr}
use mytests.Base.{Bool, true, false, ◌&&◌, List, [], ◌∷◌, length, ltb, Bool-cases, All}
use mytests.MyDd.Defs.{
  End, finished, Aio, aio_offset, aio_round, aio_loop, no_requests, evaluate_aio,
}

-- The offsets of the first `n` submissions, the last one first: the request `k` is that of block
-- `k + 1 - depth`, the first `depth` of them that of block 0.
unfoldable pub submissions : ℕ → ℕ → ℕ → List ℕ
submissions blocks depth zero = []
submissions blocks depth (suc n) =
    aio_offset blocks depth (suc n - depth) ∷ submissions blocks depth n

-- The queue is full, up to one request, from its first filling until the last block.
pub record IsQueue (blocks depth : ℕ) (a : Aio) : Type 0 where
  pub sized : a.pending_io ≤ depth
  pub total : a.sent_blocks + a.pending_io ≤ blocks
  pub asked : a.submitted ≡ submissions blocks depth (a.sent_blocks + a.pending_io)
  pub full :
      (a.sent_blocks ≡ 0) ⊎ (depth ≤ suc a.pending_io) ⊎ (blocks ≤ a.sent_blocks + a.pending_io)

aio_round-IsQueue :
    (blocks depth : ℕ) (a : Aio)
    → 0 < depth
    → a.sent_blocks < blocks
    → IsQueue blocks depth a
    → IsQueue blocks depth (aio_round blocks depth a)
      × ((2 * (aio_round blocks depth a).sent_blocks + (aio_round blocks depth a).pending_io)
          ≡ suc (2 * a.sent_blocks + a.pending_io))
unfolding aio_round submissions
aio_round-IsQueue blocks depth a pos more q =
    elim (Bool-cases (ltb a.pending_io depth && ltb (a.sent_blocks + a.pending_io) blocks)) [
      | inl e ↦
          let next : a.sent_blocks + suc a.pending_io ≡ suc (a.sent_blocks + a.pending_io) =
            omega arith in
          let sent : suc (a.sent_blocks + a.pending_io) - depth ≡ a.sent_blocks =
            ground (arith, e, q.full) in
          rw (e) (
            record {
              sized = ground (arith, e);
              total = ground (arith, e);
              asked = rw (next, submissions, sent, q.asked) refl;
              full = ground (arith, e, q.full);
            },
            omega arith,
          )
      | inr e ↦
          let some_pending : 0 < a.pending_io = ground (arith, e, q.full) in
          let next : suc a.sent_blocks + (a.pending_io - 1) ≡ a.sent_blocks + a.pending_io =
            omega (arith, some_pending) in
          rw (e) (
            record {
              sized = omega (arith, q.sized);
              total = omega (arith, q.total, some_pending);
              asked = rw (next, q.asked) refl;
              full = ground (arith, e, q.full);
            },
            omega (arith, some_pending),
          )
    ]

-- A run of the loop from a state with its queue.
record Runs (blocks depth : ℕ) (r : End × Aio) : Type 0 where
  queue : IsQueue blocks depth r.1
  ends : r.0 ≡ finished → r.1.sent_blocks ≡ blocks

aio_loop-Runs :
    (blocks depth : ℕ) (calls : List Bool) (a : Aio)
    → 0 < depth
    → IsQueue blocks depth a
    → Runs blocks depth (aio_loop blocks depth calls a)
unfolding aio_loop
aio_loop-Runs blocks depth [] a pos q = elim (Bool-cases (ltb a.sent_blocks blocks)) [
  | inl e ↦ rw (e) (record { queue = q; ends = λ h. absurd (ground (arith, h)) })
  | inr e ↦ rw (e) (record { queue = q; ends = λ h. ground (arith, e, q.total) })
]
aio_loop-Runs blocks depth (ok ∷ calls) a pos q = elim (Bool-cases (ltb a.sent_blocks blocks)) [
  | inr e ↦ rw (e) (record { queue = q; ends = λ h. ground (arith, e, q.total) })
  | inl e ↦ elim (Bool-cases ok) [
    | inr f ↦ rw (e, f) (record { queue = q; ends = λ h. absurd (ground (arith, h)) })
    | inl f ↦
        let (q', _) = aio_round-IsQueue blocks depth a pos (ground (arith, e)) q in
        rw (e, f) (aio_loop-Runs blocks depth calls (aio_round blocks depth a) pos q')
  ]
]

-- Each round of the loop moves a block on by half.
aio_loop-finished :
    (blocks depth : ℕ) (calls : List Bool) (a : Aio)
    → 0 < depth
    → IsQueue blocks depth a
    → All (λ ok. ok ≡ true) calls
    → 2 * blocks ≤ length calls + (2 * a.sent_blocks + a.pending_io)
    → (aio_loop blocks depth calls a).0 ≡ finished
unfolding aio_loop
aio_loop-finished blocks depth [] a pos q ok enough = elim (Bool-cases (ltb a.sent_blocks blocks)) [
  | inl e ↦ absurd (ground (arith, e, q.total))
  | inr e ↦ rw (e) refl
]
aio_loop-finished blocks depth (c ∷ calls) a pos q (ok, oks) enough =
    elim (Bool-cases (ltb a.sent_blocks blocks)) [
      | inr e ↦ rw (e) refl
      | inl e ↦
          let (q', moved) = aio_round-IsQueue blocks depth a pos (ground (arith, e)) q in
          rw (e, ok)
            (aio_loop-finished blocks depth calls (aio_round blocks depth a) pos q' oks
              (omega (arith, moved, enough)))
    ]

empty-IsQueue : (blocks depth : ℕ) → IsQueue blocks depth no_requests
unfolding submissions
empty-IsQueue blocks depth = record {
  sized = omega arith;
  total = omega arith;
  asked = refl;
  full = inl refl;
}

-- Whichever calls succeed, evaluate_aio has at most `depth` requests pending and as many submissions as
-- requests done and pending; their offsets are those of block 0 for the first `depth` of them and
-- then of the blocks 1, 2 and so on; and it ends by itself only when all blocks are counted.
pub evaluate_aio-IsQueue :
    (blocks depth : ℕ) (set_up : Bool) (calls : List Bool)
    → 0 < depth
    → let r = evaluate_aio blocks depth set_up calls in
      IsQueue blocks depth r.1 × (r.0 ≡ finished → r.1.sent_blocks ≡ blocks)
unfolding evaluate_aio
evaluate_aio-IsQueue blocks depth true calls pos =
    let r = aio_loop-Runs blocks depth calls no_requests pos (empty-IsQueue blocks depth) in
    (r.queue, r.ends)
evaluate_aio-IsQueue blocks depth false calls pos =
    (empty-IsQueue blocks depth, λ h. absurd (ground (arith, h)))

-- When its calls succeed, evaluate_aio ends after two calls for each block, with nothing pending and as
-- many submissions as blocks.
pub evaluate_aio-finished :
    (blocks depth : ℕ) (calls : List Bool)
    → 0 < depth
    → All (λ ok. ok ≡ true) calls
    → 2 * blocks ≤ length calls
    → let r = evaluate_aio blocks depth true calls in
      (r.0 ≡ finished) × (r.1.pending_io ≡ 0) × (r.1.submitted ≡ submissions blocks depth blocks)
unfolding evaluate_aio
evaluate_aio-finished blocks depth calls pos oks enough =
    let start = empty-IsQueue blocks depth in
    let e =
      aio_loop-finished blocks depth calls no_requests pos start oks (omega (arith, enough)) in
    let r = aio_loop-Runs blocks depth calls no_requests pos start in
    let a = (aio_loop blocks depth calls no_requests).1 in
    let sent = r.ends e in
    let none_pending : a.pending_io ≡ 0 = omega (arith, sent, r.queue.total) in
    let total : a.sent_blocks + a.pending_io ≡ blocks = omega (arith, sent, none_pending) in
    (e, none_pending, r.queue.asked ∙ ap (submissions blocks depth) total)
