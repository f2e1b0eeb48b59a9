-- ===== src/Qspinlock/Cover.antt =====
-- Every access of `advance` is a `Move`, whatever the thread and the state of a small lock.
use mytests.Base.{ℕ, ◌+◌, ◌-◌, ◌*◌, ◌||◌, ◌<◌, ◌≡◌, ◌≢◌, ◌⊎◌, refl, arith, true, false, not, dec_lt}
use mytests.Base.{Option, none, some, ◌==◌, Bool-cases, Option-cases, inl, inr}
use mytests.Qspinlock.Lock.{
  Lock, word, of_word, locked_val, contended, decode_tail, try_cmpxchg, clear_pending,
  clear_pending_set_locked, set_locked, xchg_tail, queued_spin_unlock, max_user_threads,
}
use mytests.Qspinlock.Masks.{
  IsSmall, contended-word, has_pending-word, has_locked-word, has_locked_pending-word,
  has_tail_half, tail_is-word, fetch_set_pending_lem, code, encode_tail-code, decode_tail-code,
  decode_tail-eq-some,
}
use mytests.Qspinlock.Thread.{
  Mem, Pc, advance, slowpath_entry, poll_pending, after_set_pending, after_publish, idle,
  wait_pending, set_pending, undo_pending, wait_locked, take_pending, queue, init_locked, init_next,
  trylock_read, trylock_cas, publish, link, wait_node, read_next, wait_head, claim_cas, claim_set,
  wait_next, pass, release, critical, aborted,
}
use mytests.Qspinlock.Move.{Move, IsFree, taken}

-- A compare-exchange with 0 wins exactly on a free lock.
cas_zero :
    (l : Lock)
    → IsSmall l
    → (IsFree l × (try_cmpxchg l 0 locked_val ≡ record { won = true; seen = 0; lock = taken }))
      ⊎ (try_cmpxchg l 0 locked_val ≡ record { won = false; seen = word l; lock = l })
unfolding try_cmpxchg word of_word
cas_zero l s = elim (Bool-cases (word l == 0)) [
  | inl e ↦ inl (ground arith, ground arith)
  | inr e ↦ inr (ground arith)
]

-- A compare-exchange wins exactly when the word is the expected one.
cas_word :
    (l : Lock) (val : ℕ)
    → ((word l ≡ val)
        × (try_cmpxchg l val locked_val ≡ record { won = true; seen = val; lock = taken }))
      ⊎ ((word l ≢ val)
          × (try_cmpxchg l val locked_val ≡ record { won = false; seen = word l; lock = l }))
unfolding try_cmpxchg of_word
cas_word l val = elim (Bool-cases (word l == val)) [
  | inl e ↦ inl (ground arith, ground arith)
  | inr e ↦ inr (λ t. ground (arith, e, t), ground arith)
]

module _ (me : ℕ) (m : Mem) where
  abbrev Moves : Pc → Type 0
  Moves p = Move me m p (advance me m p).0 (advance me m p).1

  by_move : {p p' : Pc} {m' : Mem} → Move me m p m' p' → advance me m p ≡ (m', p') → Moves p
  by_move mv e = rw e mv

  Moves-idle : IsSmall m.lock → Moves idle
  unfolding advance slowpath_entry
  Moves-idle s = elim (cas_zero m.lock s) [
    | inl (free, e) ↦ by_move (Move.fast_win free) (rw (e, advance) refl)
    | inr e ↦ elim (Bool-cases (word m.lock == 256)) [
      | inl p ↦ by_move (Move.fast_wait 1) (ground (arith, e))
      | inr p ↦ elim (Bool-cases (contended (word m.lock))) [
        | inl c ↦ by_move Move.fast_queue (ground (arith, e))
        | inr c ↦ by_move Move.fast_pend (ground (arith, e))
      ]
    ]
  ]

  Moves-wait_pending : (cnt : ℕ) → Moves (wait_pending cnt)
  unfolding advance poll_pending
  Moves-wait_pending cnt = elim (Bool-cases (not (word m.lock == 256) || (cnt == 0))) [
    | inr p ↦ by_move (Move.poll_more cnt (cnt - 1)) (ground arith)
    | inl p ↦ elim (Bool-cases (contended (word m.lock))) [
      | inl c ↦ by_move (Move.poll_queue cnt) (ground arith)
      | inr c ↦ by_move (Move.poll_pend cnt) (ground arith)
    ]
  ]

  Moves-set_pending : IsSmall m.lock → Moves set_pending
  unfolding advance after_set_pending
  Moves-set_pending s = elim (dec_lt 0 m.lock.pending) [
    | yes p ↦ by_move (Move.pend_lose (omega arith)) (
        ground (
          arith,
          fetch_set_pending_lem m.lock s,
          contended-word m.lock s,
          has_pending-word m.lock s,
          has_locked-word m.lock s,
        ))
    | no p ↦ elim (dec_lt 0 m.lock.tail) [
      | yes t ↦ by_move (Move.pend_undo (omega arith) (omega arith)) (
          ground (
            arith,
            fetch_set_pending_lem m.lock s,
            contended-word m.lock s,
            has_pending-word m.lock s,
            has_locked-word m.lock s,
          ))
      | no t ↦ elim (dec_lt 0 m.lock.locked) [
        | yes l ↦ by_move (Move.pend_wait (omega arith) (omega arith)) (
            ground (
              arith,
              fetch_set_pending_lem m.lock s,
              contended-word m.lock s,
              has_pending-word m.lock s,
              has_locked-word m.lock s,
            ))
        | no l ↦ by_move (Move.pend_free (omega arith)) (
            ground (
              arith,
              fetch_set_pending_lem m.lock s,
              contended-word m.lock s,
              has_pending-word m.lock s,
              has_locked-word m.lock s,
            ))
      ]
    ]
  ]

  -- What publishing does, and where it leads, in terms of the old tail.
  publish_lem :
      me < max_user_threads
      → IsSmall m.lock
      → advance me m publish ≡ (
        record m { lock = record (m.lock) { tail = code me } },
        after_publish (65536 * m.lock.tail),
      )
  unfolding advance xchg_tail
  publish_lem lt s = ground (arith, encode_tail-code me lt)

  Moves-publish : me < max_user_threads → IsSmall m.lock → Moves publish
  unfolding after_publish
  Moves-publish lt s = elim (dec_lt 0 m.lock.tail) [
    | no t ↦
        by_move (Move.publish_first (omega arith))
          (ground (arith, publish_lem lt s, has_tail_half m.lock.tail))
    | yes t ↦ elim (Option-cases (decode_tail (65536 * m.lock.tail))) [
      | inl none_left ↦
          by_move
            (Move.publish_wild (omega arith) (λ p lt' e. ground (arith, decode_tail-code p lt')))
            (ground (arith, publish_lem lt s, has_tail_half m.lock.tail))
      | inr (p, e) ↦
          let f = decode_tail-eq-some m.lock.tail p s.tail_fits s.no_idx e in
          by_move (Move.publish_behind p f.0 f.1)
            (ground (arith, publish_lem lt s, has_tail_half m.lock.tail))
    ]
  ]

  Moves-wait_head : (nx : Option ℕ) → me < max_user_threads → IsSmall m.lock → Moves (wait_head nx)
  unfolding advance
  Moves-wait_head nx lt s = elim (dec_lt 0 (m.lock.locked + m.lock.pending)) [
    | yes b ↦ by_move (Move.stay _) (ground (arith, has_locked_pending-word m.lock s))
    | no b ↦ elim (Bool-cases (m.lock.tail == code me)) [
      | inl e ↦ by_move (Move.head_last nx (omega arith) (omega arith) (ground arith)) (
          ground (
            arith,
            has_locked_pending-word m.lock s,
            tail_is-word m.lock s (code me),
            encode_tail-code me lt,
          ))
      | inr e ↦
          by_move (Move.head_more nx (omega arith) (omega arith) (λ t. ground (arith, e, t))) (
            ground (
              arith,
              has_locked_pending-word m.lock s,
              tail_is-word m.lock s (code me),
              encode_tail-code me lt,
            ))
    ]
  ]

  Moves-rest :
      IsSmall m.lock
      → Moves wait_locked
        × Moves wait_node
        × Moves wait_next
        × Moves trylock_cas
        × Moves trylock_read
        × Moves queue
  unfolding advance
  Moves-rest s = (
    elim (dec_lt 0 m.lock.locked) [
      | yes l ↦ by_move (Move.stay _) (ground (arith, has_locked-word m.lock s))
      | no l ↦ by_move (Move.owner_gone (omega arith)) (ground (arith, has_locked-word m.lock s))
    ],
    elim (dec_lt 0 (m.node_locked me)) [
      | yes l ↦ by_move (Move.woken (omega arith)) (ground arith)
      | no l ↦ by_move (Move.stay _) (ground arith)
    ],
    elim (Option-cases (m.next me)) [
      | inl e ↦ by_move (Move.stay _) (ground arith)
      | inr (nx, e) ↦ by_move (Move.next_seen nx e) (ground arith)
    ],
    elim (cas_zero m.lock s) [
      | inl (free, e) ↦ by_move (Move.try_win free) (ground (arith, e))
      | inr e ↦ by_move Move.try_lose (ground (arith, e))
    ],
    elim (Bool-cases (word m.lock == 0)) [
      | inl e ↦ by_move Move.try_free (ground arith)
      | inr e ↦ by_move Move.try_busy (ground arith)
    ],
    elim (dec_lt 0 (m.count me)) [
      | yes c ↦ by_move (Move.nested (m.count me + 1) (omega arith)) (ground arith)
      | no c ↦ by_move (Move.enqueue (omega arith)) (ground arith)
    ],
  )

  Moves-claim_cas : (nx : Option ℕ) (val : ℕ) → Moves (claim_cas nx val)
  unfolding advance
  Moves-claim_cas nx val = elim (cas_word m.lock val) [
    | inl (e, r) ↦ by_move (Move.claim_win nx val e) (ground (arith, r))
    | inr (ne, r) ↦ by_move (Move.claim_lose nx val ne) (ground (arith, r))
  ]

  pub advance-Move : (p : Pc) → me < max_user_threads → IsSmall m.lock → Moves p
  unfolding advance clear_pending clear_pending_set_locked set_locked queued_spin_unlock
  advance-Move idle lt s = Moves-idle s
  advance-Move (wait_pending cnt) lt s = Moves-wait_pending cnt
  advance-Move set_pending lt s = Moves-set_pending s
  advance-Move undo_pending lt s = Move.undo
  advance-Move wait_locked lt s = (Moves-rest s).0
  advance-Move take_pending lt s = Move.take
  advance-Move queue lt s = (Moves-rest s).5
  advance-Move init_locked lt s = Move.clear_node
  advance-Move init_next lt s = Move.clear_next
  advance-Move trylock_read lt s = (Moves-rest s).4
  advance-Move trylock_cas lt s = (Moves-rest s).3
  advance-Move publish lt s = Moves-publish lt s
  advance-Move (link p) lt s = Move.link_node p
  advance-Move wait_node lt s = (Moves-rest s).1
  advance-Move read_next lt s = Move.look_next
  advance-Move (wait_head nx) lt s = Moves-wait_head nx lt s
  advance-Move (claim_cas nx val) lt s = Moves-claim_cas nx val
  advance-Move (claim_set none) lt s = Move.claim_unknown
  advance-Move (claim_set (some nx)) lt s = Move.claim_known nx
  advance-Move wait_next lt s = (Moves-rest s).2
  advance-Move (pass nx) lt s = Move.hand_over nx
  advance-Move release lt s = Move.leave
  advance-Move critical lt s = Move.unlock
  advance-Move aborted lt s = Move.stay aborted
