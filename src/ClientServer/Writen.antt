-- ===== src/ClientServer/Writen.antt =====
-- writen of tlpi/client-server.c, and what a `write` can do.
use mytests.Base.{ℕ, zero, suc, ◌+◌, ◌-◌, ◌≤◌, ◌≡◌, refl, ap, ◌∙◌, arith, Bool, true, false}
use mytests.Base.{List, [], ◌∷◌, ◌++◌, take, drop, length, All, length-drop, take-append-drop}
use Prim.Native.Nat.{min}

-- The kernel has room for `n + 1` bytes, or fails with EINTR, or with another error.
pub data Write : Type 0 where
  room : (n : ℕ) → Write
  interrupted refused : Write

-- What a call of writen returns, what it wrote, and what the writes behind it do. `blocks` is no end of
-- the C code: nothing is known of the writes that it would still make.
pub record Written : Type 0 where
  pub written : ℕ
  pub sent : List ℕ
  pub writes : List Write
  pub blocks : Bool

-- A round writes `ret` bytes and counts them.
unfoldable pub count_round : ℕ → List ℕ → Written → Written
count_round ret buf w = record w { written = ret + w.written; sent = take ret buf ++ w.sent }

-- `write` takes what it has room for: one byte at least, and the whole of a shorter buffer.
unfoldable pub writen : List Write → List ℕ → Written
writen writes [] = record { written = 0; sent = []; writes = writes; blocks = false }
writen [] (b ∷ buf) = record { written = 0; sent = []; writes = []; blocks = true }
writen (interrupted ∷ writes) (b ∷ buf) = writen writes (b ∷ buf)
writen (refused ∷ writes) (b ∷ buf) = record {
  written = 0;
  sent = [];
  writes = writes;
  blocks = false;
}
writen (room n ∷ writes) (b ∷ buf) =
    let ret = min (suc n) (length (b ∷ buf)) in
    count_round ret (b ∷ buf) (writen writes (drop ret (b ∷ buf)))

-- How many of the writes take a byte.
unfoldable pub rooms : List Write → ℕ
rooms [] = 0
rooms (room n ∷ writes) = suc (rooms writes)
rooms (_ ∷ writes) = rooms writes

-- A write that is not refused.
abbrev pub IsWilling : Write → Type 0
IsWilling refused = ⊥
IsWilling _ = Unit

-- Whatever the writes do, short writes, EINTR and errors included, writen has written the first bytes
-- of its buffer, in order, each once, and returns how many.
pub writen-take :
    (writes : List Write) (buf : List ℕ)
    → ((writen writes buf).sent ≡ take (writen writes buf).written buf)
      × ((writen writes buf).written ≤ length buf)
unfolding writen count_round
writen-take writes [] = (refl, omega arith)
writen-take [] (b ∷ buf) = (refl, omega arith)
writen-take (interrupted ∷ writes) (b ∷ buf) = writen-take writes (b ∷ buf)
writen-take (refused ∷ writes) (b ∷ buf) = (refl, omega arith)
writen-take (room n ∷ writes) (b ∷ buf) =
    let ret = min (suc n) (length (b ∷ buf)) in
    let (p, q) = writen-take writes (drop ret (b ∷ buf)) in
    (joined ret (b ∷ buf) _ _ (omega arith) p, omega (arith, q, length-drop ret (b ∷ buf)))
  where
    joined :
        (k : ℕ) (xs ys : List ℕ) (m : ℕ)
        → k ≤ length xs
        → ys ≡ take m (drop k xs)
        → take k xs ++ ys ≡ take (k + m) xs
    joined zero xs ys m h e =
        let none_yet : m ≡ 0 + m = omega arith in e ∙ ap (λ (t : ℕ). take t xs) none_yet
    joined (suc k) [] ys m h e = absurd (omega arith)
    joined (suc k) (x ∷ xs) ys m h e =
        let one_more : suc (k + m) ≡ suc k + m = omega arith in
        ap (λ (t : List ℕ). x ∷ t) (joined k xs ys m (omega arith) e)
        ∙ ap (λ (t : ℕ). take t (x ∷ xs)) one_more

-- When no write is refused and as many of them as the buffer has bytes take a byte, writen writes the
-- whole buffer and returns its length, and as many writes are left as there were more than that.
pub writen-whole :
    (writes : List Write) (buf : List ℕ)
    → All IsWilling writes
    → length buf ≤ rooms writes
    → ((writen writes buf).sent ≡ buf)
      × ((writen writes buf).written ≡ length buf)
      × (rooms writes - length buf ≤ rooms (writen writes buf).writes)
      × All IsWilling (writen writes buf).writes
      × ((writen writes buf).blocks ≡ false)
unfolding writen count_round rooms
writen-whole writes [] h enough = (refl, refl, omega arith, h, refl)
writen-whole [] (b ∷ buf) h enough = absurd (omega arith)
writen-whole (interrupted ∷ writes) (b ∷ buf) (_, h) enough = writen-whole writes (b ∷ buf) h enough
writen-whole (refused ∷ writes) (b ∷ buf) h enough = absurd h.0
writen-whole (room n ∷ writes) (b ∷ buf) (_, h) enough =
    let ret = min (suc n) (length (b ∷ buf)) in
    let left = length-drop ret (b ∷ buf) in
    let (p, q, r, s, t) = writen-whole writes (drop ret (b ∷ buf)) h (omega (arith, left)) in
    (
      ap (λ (t : List ℕ). take ret (b ∷ buf) ++ t) p ∙ take-append-drop ret (b ∷ buf),
      omega (arith, q, left),
      omega (arith, r, left),
      s,
      t,
    )
