-- ===== src/Vio/Moves.antt =====
-- What the calls of vio_read and vio_write do to the sockets of mysql/vio-bench/.
use mytests.Base.{ℕ, suc, ◌+◌, ◌<◌, ◌≡◌, refl, ap, sym, ◌∙◌, arith}
use mytests.Base.{List, [], ◌∷◌, ◌++◌, length, length-append, replicate}
use mathlib.Core.List.{append_assoc, append-nil}
use mytests.Vio.Defs.{Version, Status, success, peer_closed, error, waiting, vio_write}
use mytests.Vio.Handlers.{Socket, read_socket, write_socket}
use mytests.Vio.Reads.{Outcome, vio_read-Reads}
use mytests.Vio.Writes.{Unsent, vio_write-Writes, replicate-begin, replicate-append}

-- From `s` to `s'`, the first `got` bytes of the stream were read, and `put` times the byte was sent.
pub record Moves (byte : ℕ) (s s' : Socket) (got put : ℕ) : Type 0 where
  pub taken : List ℕ
  pub took : taken ++ s'.stream ≡ s.stream
  pub size : length taken ≡ got
  pub gave : s'.sent ≡ s.sent ++ replicate put byte

pub same-Moves : (byte : ℕ) (s : Socket) → Moves byte s s 0 0
same-Moves byte s = record { taken = []; took = refl; size = refl; gave = sym (append-nil s.sent) }

pub Moves-as :
    {byte : ℕ} {s s' : Socket} {got put got' put' : ℕ}
    → Moves byte s s' got put
    → got ≡ got'
    → put ≡ put'
    → Moves byte s s' got' put'
Moves-as {byte} {s} m e f = record {
  taken = m.taken;
  took = m.took;
  size = m.size ∙ e;
  gave = m.gave ∙ ap (λ (t : ℕ). s.sent ++ replicate t byte) f;
}

pub Moves-both :
    {byte : ℕ} {s t u : Socket} {got put got' put' : ℕ}
    → Moves byte s t got put
    → Moves byte t u got' put'
    → Moves byte s u (got + got') (put + put')
Moves-both {byte} {s} {u = u} {put = put} {put' = put'} h k = record {
  taken = h.taken ++ k.taken;
  took = append_assoc h.taken k.taken u.stream ∙ ap (λ (t : List ℕ). h.taken ++ t) k.took ∙ h.took;
  size = omega (arith, length-append h.taken k.taken, h.size, k.size);
  gave =
      k.gave
      ∙ ap (λ (t : List ℕ). t ++ replicate put' byte) h.gave
      ∙ append_assoc s.sent (replicate put byte) (replicate put' byte)
      ∙ ap (λ (t : List ℕ). s.sent ++ t) (replicate-append put put' byte);
}

pub read_socket-Moves :
    (version : Version) (size byte : ℕ) (s : Socket)
    → 0 < size
    → let r = read_socket version size s in
      Moves byte s r.socket (length r.bytes) 0 × Outcome size r.status r.bytes r.socket.stream
unfolding read_socket
read_socket-Moves version size byte s pos =
    let r = vio_read-Reads version s.recvs s.polls size s.stream pos in
    (
      record { taken = _; took = r.in_order; size = refl; gave = sym (append-nil s.sent) },
      r.outcome,
    )

-- How many bytes of a buffer of `size` a result stands for.
pub data Part (size : ℕ) : Status → ℕ → Type 0 where
  whole : Part size success size
  broken : (m : ℕ) → m < size → Part size error m
  unfinished : (m : ℕ) → m < size → Part size waiting m

Unsent-Part :
    (size : ℕ) (status : Status) (m : ℕ) (unsent : List ℕ)
    → m + length unsent ≡ size
    → Unsent status unsent
    → Part size status m
Unsent-Part size success m [] e Unsent.none_left =
    let same : size ≡ m = omega (arith, e) in rw same Part.whole
Unsent-Part size success m (_ ∷ _) e u = elim u [ ]
Unsent-Part size peer_closed m _ e u = elim u [ ]
Unsent-Part size error m _ e (Unsent.broken b rest) = Part.broken m (omega (arith, e))
Unsent-Part size waiting m _ e (Unsent.unfinished b rest) = Part.unfinished m (omega (arith, e))

pub write_socket-Moves :
    (version : Version) (n byte : ℕ) (s : Socket)
    → let w = write_socket version (replicate (suc n) byte) s in
      (m : ℕ) × Moves byte s w.socket 0 m × Part (suc n) w.status m
unfolding write_socket
write_socket-Moves version n byte s =
    let p = vio_write version s.sends s.polls (replicate (suc n) byte) in
    let w = vio_write-Writes version s.sends s.polls byte (replicate n byte) in
    let (same, size) = replicate-begin (suc n) byte p.sent w.unsent w.in_order in
    (
      length p.sent,
      record { taken = []; took = refl; size = refl; gave = ap (λ (t : List ℕ). s.sent ++ t) same },
      Unsent-Part (suc n) p.status (length p.sent) w.unsent size w.outcome,
    )
