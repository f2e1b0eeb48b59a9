-- ===== src/ClientServer/Copying.antt =====
-- The client of tlpi/client-server.c passes bytes on in order.
use mytests.Base.{ℕ, zero, suc, ◌≡◌, refl, ap, sym, ◌∙◌, arith, Bool, true, false, ◌||◌}
use mytests.Base.{
  inl, inr, ==_iff, List, [], ◌∷◌, ◌++◌, ◌==◌, if◌then◌else◌, take, drop, length, take-append-drop,
  Bool-cases,
}
use mathlib.Core.Path.{subst}
use mathlib.Core.List.{append_assoc}
use mytests.ClientServer.Writen.{Write, writen, Written, writen-take}
use mytests.ClientServer.Client.{
  Read, got, eintr, eagain, failed, Stream, Pumped, drained, error, blocked, goes_on, stops,
  after_writen, pump_loop, Poll, again, broken, ready, Client, End, ended, polling, Side, side_of,
  pump, client,
}

-- The bytes that reads have to give.
unfoldable pub input : List Read → List ℕ
input [] = []
input (got bytes ∷ reads) = bytes ++ input reads
input (_ ∷ reads) = input reads

-- `whole` starts with the bytes `xs`.
pub record StartsWith (whole xs : List ℕ) : Type 0 where
  rest : List ℕ
  joins : xs ++ rest ≡ whole

-- What a loop has done with what was copied and was to come.
abbrev pub Moves : List ℕ → Pumped → Type 0
Moves whole (drained s) = s.copied ++ input s.reads ≡ whole
Moves whole (error s) = StartsWith whole s.copied
Moves whole (blocked s) = StartsWith whole s.copied

take-StartsWith :
    (copied bytes later : List ℕ) (k : ℕ)
    → StartsWith (copied ++ (bytes ++ later)) (copied ++ take k bytes)
take-StartsWith copied bytes later k = record {
  rest = drop k bytes ++ later;
  joins =
      append_assoc copied (take k bytes) (drop k bytes ++ later)
      ∙ ap (λ (t : List ℕ). copied ++ t) (sym (append_assoc (take k bytes) (drop k bytes) later))
      ∙ ap (λ (t : List ℕ). copied ++ (t ++ later)) (take-append-drop k bytes);
}

take_whole : (k : ℕ) (xs : List ℕ) → k ≡ length xs → take k xs ≡ xs
take_whole zero [] e = refl
take_whole zero (x ∷ xs) e = absurd (omega (arith, e))
take_whole (suc k) [] e = refl
take_whole (suc k) (x ∷ xs) e = ap (λ (t : List ℕ). x ∷ t) (take_whole k xs (omega (arith, e)))

round-Moves :
    (bytes copied : List ℕ) (reads : List Read) (w : Written)
    → (w.sent ≡ take w.written bytes)
    → ((t : List ℕ) → Moves (t ++ input reads) (pump_loop reads w.writes t))
    → let s : Stream = record { reads = reads; writes = w.writes; copied = copied ++ w.sent } in
      Moves
        (copied ++ (bytes ++ input reads))
        (elim (after_writen (length bytes) s w.blocks w.written) [
          | goes_on s' ↦ pump_loop reads s'.writes s'.copied
          | stops p ↦ p
        ])
unfolding after_writen
round-Moves bytes copied reads w e ih = elim (Bool-cases w.blocks) [
  | inl h ↦ rw (h, e) (take-StartsWith copied bytes (input reads) w.written)
  | inr h ↦ elim (Bool-cases (w.written == length bytes)) [
    | inl k ↦
        let all_sent : bytes ≡ w.sent = sym (e ∙ take_whole w.written bytes ((==_iff _ _).0 k)) in
        let moved =
          subst (λ (t : List ℕ). Moves t (pump_loop reads w.writes (copied ++ bytes)))
            (append_assoc copied bytes (input reads)) (ih (copied ++ bytes)) in
        rw (h, k)
          (subst
            (λ (t : List ℕ).
              Moves (copied ++ (bytes ++ input reads)) (pump_loop reads w.writes (copied ++ t)))
            all_sent moved)
    | inr k ↦ rw (h, k, e) (take-StartsWith copied bytes (input reads) w.written)
  ]
]

pub pump_loop-Moves :
    (reads : List Read) (writes : List Write) (copied : List ℕ)
    → Moves (copied ++ input reads) (pump_loop reads writes copied)
unfolding pump_loop input
pump_loop-Moves [] writes copied = record { rest = []; joins = refl }
pump_loop-Moves (eintr ∷ reads) writes copied = pump_loop-Moves reads writes copied
pump_loop-Moves (eagain ∷ reads) writes copied = refl
pump_loop-Moves (failed ∷ reads) writes copied = record { rest = input reads; joins = refl }
pump_loop-Moves (got [] ∷ reads) writes copied = record { rest = input reads; joins = refl }
pump_loop-Moves (got (b ∷ bytes) ∷ reads) writes copied =
    round-Moves (b ∷ bytes) copied reads (writen writes (b ∷ bytes))
      ((writen-take writes (b ∷ bytes)).0)
      (λ t. pump_loop-Moves reads (writen writes (b ∷ bytes)).writes t)

-- What a stream has copied and has to come.
unfoldable pub carried : Stream → List ℕ
carried s = s.copied ++ input s.reads

-- A round of one direction: what was copied begins what was to come, and all of it is kept when the
-- round goes on.
record Keeps (s : Stream) (a : Side) : Type 0 where
  begins : StartsWith (carried s) a.stream.copied
  keeps : a.err ≡ false → a.waits ≡ false → carried a.stream ≡ carried s

side_of-Keeps : (s : Stream) (p : Pumped) → Moves (carried s) p → Keeps s (side_of p)
unfolding side_of carried
side_of-Keeps s (drained s') h = record {
  begins = record { rest = input s'.reads; joins = h };
  keeps = λ e w. h;
}
side_of-Keeps s (error s') h = record { begins = h; keeps = λ e w. ground (arith, e) }
side_of-Keeps s (blocked s') h = record { begins = h; keeps = λ e w. ground (arith, w) }

pump-Keeps : (ready_in : Bool) (s : Stream) → Keeps s (pump ready_in s)
unfolding pump carried
pump-Keeps true s = side_of-Keeps s _ (pump_loop-Moves s.reads s.writes s.copied)
pump-Keeps false s = record {
  begins = record { rest = input s.reads; joins = refl };
  keeps = λ e w. refl;
}

-- Both directions.
abbrev Begins : Client → Client → Type 0
Begins c c' =
    StartsWith (carried c.to_socket) c'.to_socket.copied
    × StartsWith (carried c.to_stdout) c'.to_stdout.copied

same-Begins : (c : Client) → Begins c c
unfolding carried
same-Begins c = (
  record { rest = input c.to_socket.reads; joins = refl },
  record { rest = input c.to_stdout.reads; joins = refl },
)

round-Begins :
    (c : Client) (a b : Side) (hung_up : Bool) (rest : End × Client)
    → Keeps c.to_socket a
    → Keeps c.to_stdout b
    → let c' : Client = record { to_socket = a.stream; to_stdout = b.stream } in
      Begins c' rest.1
      → Begins c
          (if a.waits || b.waits
            then (polling, c')
            else if hung_up || a.err || b.err
            then (ended, c')
            else rest).1
round-Begins c a b hung_up rest h k later = elim (Bool-cases (a.waits || b.waits)) [
  | inl e ↦ rw (e) (h.begins, k.begins)
  | inr e ↦ elim (Bool-cases (hung_up || a.err || b.err)) [
    | inl e' ↦ rw (e, e') (h.begins, k.begins)
    | inr e' ↦
        rw (e, e')
          (
            subst (λ (t : List ℕ). StartsWith t rest.1.to_socket.copied)
                (h.keeps (ground (arith, e')) (ground (arith, e))) later.0,
            subst (λ (t : List ℕ). StartsWith t rest.1.to_stdout.copied)
                (k.keeps (ground (arith, e')) (ground (arith, e))) later.1,
          )
  ]
]

side-Keeps :
    (waits socket_in : Bool) (s : Stream)
    → Keeps s (if waits then pump false s else pump socket_in s)
side-Keeps true socket_in s = pump-Keeps false s
side-Keeps false socket_in s = pump-Keeps socket_in s

-- Whatever `poll`, the reads and the writes do, errors, interruptions and short writes included, what the
-- client has written in each direction is a beginning of what was written before and of the bytes that
-- its reads give, in order, each byte once.
pub client-begins :
    (polls : List Poll) (c : Client)
    → let c' = (client polls c).1 in
      StartsWith (carried c.to_socket) c'.to_socket.copied
      × StartsWith (carried c.to_stdout) c'.to_stdout.copied
unfolding client
client-begins [] c = same-Begins c
client-begins (again ∷ polls) c = client-begins polls c
client-begins (broken ∷ polls) c = same-Begins c
client-begins (ready stdin_in socket_in hung_up ∷ polls) c =
    let a = pump stdin_in c.to_socket in
    let b = if a.waits then pump false c.to_stdout else pump socket_in c.to_stdout in
    let c' : Client = record { to_socket = a.stream; to_stdout = b.stream } in
    round-Begins c a b hung_up (client polls c') (pump-Keeps stdin_in c.to_socket)
      (side-Keeps a.waits socket_in c.to_stdout) (client-begins polls c')
