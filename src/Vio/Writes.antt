-- ===== src/Vio/Writes.antt =====
-- vio_write of mysql/vio-bench/ and mysql/vio-bench2/ sends the first bytes of its buffer.
use mytests.Base.{ℕ, zero, suc, ◌+◌, ◌<◌, ◌≡◌, refl, ap, ◌∙◌, arith, inl, inr}
use mytests.Base.{
  List, [], ◌∷◌, ◌++◌, ◌==◌, take, drop, length, length-drop, take-append-drop, Bool-cases,
  replicate,
}
use Prim.Native.Nat.{min}
use mathlib.Core.List.{append_assoc, append-nil}
use mytests.Vio.Defs.{
  Send, room, send_intr, send_again, send_failed, Poll, Waited, goes_on, gives_up, polling, Version,
  after_again, Status, success, error, waiting, Put, passed, vio_write,
}

-- What a result says of the bytes that were not sent.
pub data Unsent : Status → List ℕ → Type 0 where
  none_left : Unsent success []
  broken : (b : ℕ) (rest : List ℕ) → Unsent error (b ∷ rest)
  unfinished : (b : ℕ) (rest : List ℕ) → Unsent waiting (b ∷ rest)

pub record Writes (buf : List ℕ) (p : Put) : Type 0 where
  pub unsent : List ℕ
  pub in_order : p.sent ++ unsent ≡ buf
  pub outcome : Unsent p.status unsent

passed-Writes :
    (buf first rest : List ℕ) (p : Put)
    → first ++ rest ≡ buf
    → Writes rest p
    → Writes buf (passed first p)
unfolding passed
passed-Writes buf first rest p e w = record {
  unsent = w.unsent;
  in_order = append_assoc first p.sent w.unsent ∙ ap (λ (t : List ℕ). first ++ t) w.in_order ∙ e;
  outcome = w.outcome;
}

-- The rounds stop before the buffer is empty, so that a next round has a byte to send.
next_byte : (xs : List ℕ) → 0 < length xs → (b : ℕ) × (rest : List ℕ) × (xs ≡ b ∷ rest)
next_byte [] h = absurd (omega arith)
next_byte (b ∷ rest) h = (b, rest, refl)

-- Whatever the sends and the polls do, vio_write has sent the first bytes of its buffer, which is not
-- empty, in order, and it returns 0 exactly when these are all.
pub vio_write-Writes :
    (version : Version) (sends : List Send) (polls : List Poll) (b : ℕ) (buf : List ℕ)
    → Writes (b ∷ buf) (vio_write version sends polls (b ∷ buf))
unfolding vio_write
vio_write-Writes version [] polls b buf = record {
  unsent = b ∷ buf;
  in_order = refl;
  outcome = Unsent.unfinished b buf;
}
vio_write-Writes version (room n ∷ sends) polls b buf =
    let whole = b ∷ buf in
    let ret = min (suc n) (length whole) in
    elim (Bool-cases (ret == length whole)) [
      | inl e ↦
          rw (e) (record { unsent = []; in_order = append-nil whole; outcome = Unsent.none_left })
      | inr e ↦
          let (c, rest, left) =
            next_byte (drop ret whole) (ground (arith, e, length-drop ret whole)) in
          rw (e) (
            passed-Writes whole (take ret whole) (drop ret whole) _ (take-append-drop ret whole)
              (rw left (vio_write-Writes version sends polls c rest)))
    ]
vio_write-Writes version (send_intr ∷ sends) polls b buf =
    vio_write-Writes version sends polls b buf
vio_write-Writes version (send_again ∷ sends) polls b buf =
    again (after_again version polls) λ polls'. vio_write-Writes version sends polls' b buf
  where
    again :
        (w : Waited)
        → ((polls' : List Poll) → Writes (b ∷ buf) (vio_write version sends polls' (b ∷ buf)))
        → Writes (b ∷ buf) (elim w [
          | goes_on polls' ↦ vio_write version sends polls' (b ∷ buf)
          | gives_up polls' ↦ record { status = error; sent = []; sends = sends; polls = polls' }
          | polling ↦ record { status = waiting; sent = []; sends = sends; polls = [] }
        ])
    again (goes_on polls') ih = ih polls'
    again (gives_up polls') ih = record {
      unsent = b ∷ buf;
      in_order = refl;
      outcome = Unsent.broken b buf;
    }
    again polling ih = record {
      unsent = b ∷ buf;
      in_order = refl;
      outcome = Unsent.unfinished b buf;
    }
vio_write-Writes version (send_failed ∷ sends) polls b buf = record {
  unsent = b ∷ buf;
  in_order = refl;
  outcome = Unsent.broken b buf;
}

-- The beginning of a buffer of one byte repeated.
pub replicate-begin :
    (n a : ℕ) (xs ys : List ℕ)
    → xs ++ ys ≡ replicate n a
    → (xs ≡ replicate (length xs) a) × (length xs + length ys ≡ n)
replicate-begin n a [] ys e = (refl, omega (arith, ap length e, length-replicate n a))
  where
    length-replicate : (n a : ℕ) → length (replicate n a) ≡ n
    length-replicate zero a = refl
    length-replicate (suc n) a = ap suc (length-replicate n a)
replicate-begin zero a (x ∷ xs) ys e = absurd (omega (arith, ap length e))
replicate-begin (suc n) a (x ∷ xs) ys e =
    let heads : x ≡ a = ground (arith, e) in
    let tails : xs ++ ys ≡ replicate n a = ground (arith, e) in
    let (p, q) = replicate-begin n a xs ys tails in
    (rw (heads) (ap (λ (t : List ℕ). a ∷ t) p), omega (arith, q))

pub replicate-append : (n m a : ℕ) → replicate n a ++ replicate m a ≡ replicate (n + m) a
replicate-append zero m a = ap (λ (t : ℕ). replicate t a) (omega arith)
replicate-append (suc n) m a =
    let one_more : suc (n + m) ≡ suc n + m = omega arith in
    ap (λ (t : List ℕ). a ∷ t) (replicate-append n m a) ∙ ap (λ (t : ℕ). replicate t a) one_more
