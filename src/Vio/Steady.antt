-- ===== src/Vio/Steady.antt =====
-- The calls of the server of mysql/vio-bench/ on a socket that does not fail and does not block for ever.
use mytests.Base.{ℕ, suc, ◌+◌, ◌-◌, ◌≤◌, ◌<◌, ◌≡◌, refl, arith, ◌⊎◌, inl, inr}
use mytests.Base.{List, [], ◌∷◌, ◌==◌, take, drop, length, All, length-drop, Bool-cases}
use Prim.Native.Nat.{min}
use mytests.Vio.Defs.{
  Recv, ready, recv_intr, recv_again, recv_failed, Send, room, send_intr, send_again, send_failed,
  Poll, able, poll_intr, poll_failed, goes_on, vio_wait, waits, after_again, success, peer_closed,
  closed_status, Got, stored, vio_read, Put, passed, vio_write,
}

abbrev pub IsReceiving : Recv → Type 0
IsReceiving recv_failed = ⊥
IsReceiving _ = Unit

abbrev pub IsSending : Send → Type 0
IsSending send_failed = ⊥
IsSending _ = Unit

abbrev pub IsPolling : Poll → Type 0
IsPolling poll_failed = ⊥
IsPolling _ = Unit

-- How many receives give bytes or the end of the stream, and how many wait.
unfoldable pub readies : List Recv → ℕ
readies [] = 0
readies (ready n ∷ recvs) = suc (readies recvs)
readies (_ ∷ recvs) = readies recvs

unfoldable pub recv_agains : List Recv → ℕ
recv_agains [] = 0
recv_agains (recv_again ∷ recvs) = suc (recv_agains recvs)
recv_agains (_ ∷ recvs) = recv_agains recvs

unfoldable pub rooms : List Send → ℕ
rooms [] = 0
rooms (room n ∷ sends) = suc (rooms sends)
rooms (_ ∷ sends) = rooms sends

unfoldable pub send_agains : List Send → ℕ
send_agains [] = 0
send_agains (send_again ∷ sends) = suc (send_agains sends)
send_agains (_ ∷ sends) = send_agains sends

unfoldable pub ables : List Poll → ℕ
ables [] = 0
ables (able ∷ polls) = suc (ables polls)
ables (_ ∷ polls) = ables polls

-- A wait takes one of the polls that succeed.
vio_wait-able :
    (polls : List Poll)
    → All IsPolling polls
    → 0 < ables polls
    → (polls' : List Poll) × (vio_wait polls ≡ goes_on polls')
      × All IsPolling polls'
      × (suc (ables polls') ≡ ables polls)
unfolding vio_wait ables
vio_wait-able [] h pos = absurd (omega arith)
vio_wait-able (able ∷ polls) (_, h) pos = (polls, refl, h, refl)
vio_wait-able (poll_intr ∷ polls) (_, h) pos = vio_wait-able polls h pos
vio_wait-able (poll_failed ∷ polls) (h, _) pos = absurd h

-- The result of a read on such a socket, where `x` waits are kept for other calls.
pub record Received (x : ℕ) (g : Got) : Type 0 where
  pub ends : ((g.status ≡ success) × (length g.stream < readies g.recvs)) ⊎ (g.status ≡ peer_closed)
  pub receiving : All IsReceiving g.recvs
  pub polling_on : All IsPolling g.polls
  pub spare : recv_agains g.recvs + x ≤ ables g.polls

stored-Received : (x : ℕ) (first : List ℕ) (g : Got) → Received x g → Received x (stored first g)
unfolding stored
stored-Received x first g r = record {
  ends = r.ends;
  receiving = r.receiving;
  polling_on = r.polling_on;
  spare = r.spare;
}

pub vio_read-Received :
    (x : ℕ) (recvs : List Recv) (polls : List Poll) (size : ℕ) (stream : List ℕ)
    → 0 < size
    → All IsReceiving recvs
    → All IsPolling polls
    → length stream < readies recvs
    → recv_agains recvs + x ≤ ables polls
    → Received x (vio_read waits recvs polls size stream)
unfolding vio_read readies recv_agains after_again closed_status
vio_read-Received x [] polls size stream pos hr hp more spare = absurd (omega arith)
vio_read-Received x (ready n ∷ recvs) polls size stream pos (_, hr) hp more spare =
    let ret = min (min (suc n) size) (length stream) in
    let left = length-drop ret stream in
    elim (Bool-cases (ret == size)) [
      | inl e ↦ rw (e) (record {
        ends = inl (refl, ground (arith, e, left));
        receiving = hr;
        polling_on = hp;
        spare = spare;
      })
      | inr e ↦ elim (Bool-cases (ret == 0)) [
        | inl z ↦
            rw (e, z) (record { ends = inr refl; receiving = hr; polling_on = hp; spare = spare })
        | inr z ↦
            rw (e, z)
              (stored-Received x (take ret stream) _ (
                vio_read-Received x recvs polls (size - ret) (drop ret stream)
                  (ground (arith, e, z)) hr hp (ground (arith, z, left)) spare))
      ]
    ]
vio_read-Received x (recv_intr ∷ recvs) polls size stream pos (_, hr) hp more spare =
    vio_read-Received x recvs polls size stream pos hr hp more spare
vio_read-Received x (recv_again ∷ recvs) polls size stream pos (_, hr) hp more spare =
    let (polls', e, hp', one) = vio_wait-able polls hp (omega arith) in
    rw (e, vio_read)
      (vio_read-Received x recvs polls' size stream pos hr hp' more (omega (arith, one)))
vio_read-Received x (recv_failed ∷ recvs) polls size stream pos (h, _) hp more spare = absurd h

-- The same of a write, for which `y` bytes and `x` waits are kept.
pub record Delivered (x y : ℕ) (p : Put) : Type 0 where
  pub ends : p.status ≡ success
  pub sending : All IsSending p.sends
  pub polling_on : All IsPolling p.polls
  pub more : y ≤ rooms p.sends
  pub spare : send_agains p.sends + x ≤ ables p.polls

passed-Delivered :
    (x y : ℕ) (first : List ℕ) (p : Put) → Delivered x y p → Delivered x y (passed first p)
unfolding passed
passed-Delivered x y first p r = record {
  ends = r.ends;
  sending = r.sending;
  polling_on = r.polling_on;
  more = r.more;
  spare = r.spare;
}

pub vio_write-Delivered :
    (x y : ℕ) (sends : List Send) (polls : List Poll) (buf : List ℕ)
    → 0 < length buf
    → All IsSending sends
    → All IsPolling polls
    → length buf + y ≤ rooms sends
    → send_agains sends + x ≤ ables polls
    → Delivered x y (vio_write waits sends polls buf)
unfolding vio_write rooms send_agains after_again
vio_write-Delivered x y [] polls buf pos hs hp more spare = absurd (omega arith)
vio_write-Delivered x y (room n ∷ sends) polls buf pos (_, hs) hp more spare =
    let ret = min (suc n) (length buf) in
    let left = length-drop ret buf in
    elim (Bool-cases (ret == length buf)) [
      | inl e ↦
          rw (e) (record {
            ends = refl;
            sending = hs;
            polling_on = hp;
            more = omega arith;
            spare = spare;
          })
      | inr e ↦ rw (e) (
          passed-Delivered x y (take ret buf) _ (
            vio_write-Delivered x y sends polls (drop ret buf) (ground (arith, e, left)) hs hp
              (omega (arith, left)) spare))
    ]
vio_write-Delivered x y (send_intr ∷ sends) polls buf pos (_, hs) hp more spare =
    vio_write-Delivered x y sends polls buf pos hs hp more spare
vio_write-Delivered x y (send_again ∷ sends) polls buf pos (_, hs) hp more spare =
    let (polls', e, hp', one) = vio_wait-able polls hp (omega arith) in
    rw (e, vio_write)
      (vio_write-Delivered x y sends polls' buf pos hs hp' more (omega (arith, one)))
vio_write-Delivered x y (send_failed ∷ sends) polls buf pos (h, _) hp more spare = absurd h
