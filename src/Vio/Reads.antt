-- ===== src/Vio/Reads.antt =====
-- vio_read of mysql/vio-bench/ and mysql/vio-bench2/ returns the next bytes of the stream.
use mytests.Base.{ℕ, suc, ◌-◌, ◌<◌, ◌≡◌, refl, ap, ◌∙◌, arith, inl, inr}
use mytests.Base.{
  List, [], ◌∷◌, ◌++◌, ◌==◌, take, drop, length, length-append, length-take, take-append-drop,
  Bool-cases, ==_iff,
}
use Prim.Native.Nat.{min}
use mathlib.Core.List.{append_assoc}
use mytests.Vio.Defs.{
  Recv, ready, recv_intr, recv_again, recv_failed, Poll, Waited, goes_on, gives_up, polling,
  Version, waits, retries, fails, after_again, Status, success, peer_closed, error, waiting,
  closed_status, Got, stored, vio_read,
}

-- What a result says of the bytes read and left, for a size that is not 0.
pub data Outcome (size : ℕ) : Status → List ℕ → List ℕ → Type 0 where
  whole : (bytes rest : List ℕ) → length bytes ≡ size → Outcome size success bytes rest
  ended : (bytes : List ℕ) → length bytes < size → Outcome size peer_closed bytes []
  broken : (bytes rest : List ℕ) → length bytes < size → Outcome size error bytes rest
  unfinished : (bytes rest : List ℕ) → length bytes < size → Outcome size waiting bytes rest

pub record Reads (size : ℕ) (stream : List ℕ) (g : Got) : Type 0 where
  pub in_order : g.bytes ++ g.stream ≡ stream
  pub outcome : Outcome size g.status g.bytes g.stream

more-Outcome :
    (size : ℕ) (first : List ℕ) (s : Status) (bytes rest : List ℕ)
    → length first < size
    → Outcome (size - length first) s bytes rest
    → Outcome size s (first ++ bytes) rest
more-Outcome size first success bytes rest h (Outcome.whole _ _ e) =
    Outcome.whole (first ++ bytes) rest (omega (arith, e, h, length-append first bytes))
more-Outcome size first peer_closed bytes rest h (Outcome.ended _ e) =
    Outcome.ended (first ++ bytes) (omega (arith, e, h, length-append first bytes))
more-Outcome size first error bytes rest h (Outcome.broken _ _ e) =
    Outcome.broken (first ++ bytes) rest (omega (arith, e, h, length-append first bytes))
more-Outcome size first waiting bytes rest h (Outcome.unfinished _ _ e) =
    Outcome.unfinished (first ++ bytes) rest (omega (arith, e, h, length-append first bytes))

stored-Reads :
    (size : ℕ) (stream first rest : List ℕ) (g : Got)
    → first ++ rest ≡ stream
    → length first < size
    → Reads (size - length first) rest g
    → Reads size stream (stored first g)
unfolding stored
stored-Reads size stream first rest g e h r = record {
  in_order = append_assoc first g.bytes g.stream ∙ ap (λ (t : List ℕ). first ++ t) r.in_order ∙ e;
  outcome = more-Outcome size first g.status g.bytes g.stream h r.outcome;
}

closed-Outcome :
    (version : Version) (size : ℕ) → 0 < size → Outcome size (closed_status version) [] []
unfolding closed_status
closed-Outcome waits size h = Outcome.ended [] h
closed-Outcome retries size h = Outcome.broken [] [] h
closed-Outcome fails size h = Outcome.broken [] [] h

nothing_left : (xs : List ℕ) → length xs ≡ 0 → xs ≡ []
nothing_left [] e = refl
nothing_left (x ∷ xs) e = absurd (omega (arith, e))

-- Whatever the receives and the polls do, short reads, interruptions and errors included, vio_read stores
-- the first bytes of the stream in order and leaves the others; it returns 0 exactly when these are
-- `size` bytes, and -999 only at the end of the stream.
pub vio_read-Reads :
    (version : Version) (recvs : List Recv) (polls : List Poll) (size : ℕ) (stream : List ℕ)
    → 0 < size
    → Reads size stream (vio_read version recvs polls size stream)
unfolding vio_read
vio_read-Reads version [] polls size stream pos = record {
  in_order = refl;
  outcome = Outcome.unfinished [] stream pos;
}
vio_read-Reads version (ready n ∷ recvs) polls size stream pos =
    let ret = min (min (suc n) size) (length stream) in
    let first = take ret stream in
    let size_first : length first ≡ ret = length-take ret stream ∙ omega arith in
    elim (Bool-cases (ret == size)) [
      | inl e ↦ rw (e) (record {
        in_order = take-append-drop ret stream;
        outcome = Outcome.whole first (drop ret stream) (size_first ∙ (==_iff ret size).0 e);
      })
      | inr e ↦ elim (Bool-cases (ret == 0)) [
        | inl z ↦
            let none_left = nothing_left stream (ground (arith, z)) in
            rw (e, z, none_left)
              (record { in_order = refl; outcome = closed-Outcome version size pos })
        | inr z ↦
            let less : ret < size = ground (arith, e) in
            let ih =
              vio_read-Reads version recvs polls (size - ret) (drop ret stream)
                (omega (arith, less)) in
            rw (e, z)
              (stored-Reads size stream first (drop ret stream) _ (take-append-drop ret stream)
                (omega (arith, less, size_first)) (rw size_first ih))
      ]
    ]
vio_read-Reads version (recv_intr ∷ recvs) polls size stream pos =
    vio_read-Reads version recvs polls size stream pos
vio_read-Reads version (recv_again ∷ recvs) polls size stream pos =
    again (after_again version polls) λ polls'. vio_read-Reads version recvs polls' size stream pos
  where
    again :
        (w : Waited)
        → ((polls' : List Poll) → Reads size stream (vio_read version recvs polls' size stream))
        → Reads size stream (elim w [
          | goes_on polls' ↦ vio_read version recvs polls' size stream
          | gives_up polls' ↦ record {
            status = error;
            bytes = [];
            stream = stream;
            recvs = recvs;
            polls = polls';
          }
          | polling ↦ record {
            status = waiting;
            bytes = [];
            stream = stream;
            recvs = recvs;
            polls = [];
          }
        ])
    again (goes_on polls') ih = ih polls'
    again (gives_up polls') ih = record { in_order = refl; outcome = Outcome.broken [] stream pos }
    again polling ih = record { in_order = refl; outcome = Outcome.unfinished [] stream pos }
vio_read-Reads version (recv_failed ∷ recvs) polls size stream pos = record {
  in_order = refl;
  outcome = Outcome.broken [] stream pos;
}
