-- ===== src/ClientServer/Sends.antt =====
-- What the answers of tlpi/client-server.c's server send.
use mytests.Base.{ℕ, zero, suc, ◌+◌, ◌-◌, ◌≤◌, ◌≡◌, refl, ap, sym, ◌∙◌, arith, inl, inr}
use mytests.Base.{
  Option-cases, List, [], ◌∷◌, ◌++◌, take, drop, length, All, length-append, length-drop,
  take-append-drop,
}
use mathlib.Core.List.{append_assoc, append-nil}
use mytests.ClientServer.Writen.{rooms, IsWilling, writen-whole}
use mytests.ClientServer.Defs.{
  Os, Server, send, newline, invalid_path, server_pwd, skip_spaces, server_cd, ls_loop,
}
use mytests.ClientServer.Session.{cd, answer}

-- `s'` is `s` after it has sent `text` in full.
pub record Sends (s : Server) (text : List ℕ) (s' : Server) : Type 0 where
  pub all_sent : s'.sent ≡ s.sent ++ text
  pub left : rooms s.writes - length text ≤ rooms s'.writes
  pub willing : All IsWilling s'.writes

-- A server whose socket takes `n` bytes or more.
pub record IsOpen (n : ℕ) (s : Server) : Type 0 where
  pub enough : n ≤ rooms s.writes
  pub willing : All IsWilling s.writes

send-Sends :
    (s : Server) (buf : List ℕ)
    → IsOpen (length buf) s
    → Sends s buf (send s buf) × ((send s buf).cwd ≡ s.cwd)
unfolding send
send-Sends s buf o =
    let (p, q, r, t, u) = writen-whole s.writes buf o.willing o.enough in
    (record { all_sent = ap (λ (t : List ℕ). s.sent ++ t) p; left = r; willing = t }, refl)

pub Sends-nothing : (s : Server) → All IsWilling s.writes → Sends s [] s
Sends-nothing s w = record { all_sent = sym (append-nil s.sent); left = omega arith; willing = w }

Sends-both : {a b : List ℕ} {s t u : Server} → Sends s a t → Sends t b u → Sends s (a ++ b) u
Sends-both {a} {b} {s} h k = record {
  all_sent = k.all_sent ∙ ap (λ (t : List ℕ). t ++ b) h.all_sent ∙ append_assoc s.sent a b;
  left = omega (arith, h.left, k.left, length-append a b);
  willing = k.willing;
}

pub IsOpen-after :
    {n : ℕ} {a : List ℕ} {s t : Server} → IsOpen (length a + n) s → Sends s a t → IsOpen n t
IsOpen-after o h = record { enough = omega (arith, o.enough, h.left); willing = h.willing }

pub IsOpen-less : {n m : ℕ} {s : Server} → n ≤ m → IsOpen m s → IsOpen n s
IsOpen-less le o = record { enough = omega (arith, le, o.enough); willing = o.willing }

pub server_pwd-Sends :
    (s : Server)
    → IsOpen (length (s.cwd ++ newline)) s
    → Sends s (s.cwd ++ newline) (server_pwd s) × ((server_pwd s).cwd ≡ s.cwd)
unfolding server_pwd
server_pwd-Sends s o =
    let size = length-append s.cwd newline in
    let (a, ea) = send-Sends s s.cwd (IsOpen-less (omega (arith, size)) o) in
    let (b, eb) =
      send-Sends (send s s.cwd) newline (IsOpen-after (IsOpen-less (omega (arith, size)) o) a) in
    (Sends-both a b, eb ∙ ea)

pub ls_loop-Sends :
    (fuel : ℕ) (out : List ℕ) (s : Server)
    → length out ≤ fuel
    → IsOpen (length out) s
    → Sends s out (ls_loop fuel out s) × ((ls_loop fuel out s).cwd ≡ s.cwd)
unfolding ls_loop
ls_loop-Sends fuel [] s le o = (Sends-nothing s o.willing, refl)
ls_loop-Sends zero (b ∷ out) s le o = absurd (omega arith)
ls_loop-Sends (suc fuel) (b ∷ out) s le o =
    pieces (take 128 (b ∷ out)) (drop 128 (b ∷ out)) (take-append-drop 128 (b ∷ out))
      (omega (arith, length-drop 128 (b ∷ out)))
      (λ t le'. ls_loop-Sends fuel (drop 128 (b ∷ out)) t le')
  where
    pieces :
        (first rest : List ℕ)
        → first ++ rest ≡ b ∷ out
        → length rest ≤ fuel
        → ((t : Server)
            → length rest ≤ fuel
            → IsOpen (length rest) t
            → Sends t rest (ls_loop fuel rest t) × ((ls_loop fuel rest t).cwd ≡ t.cwd))
        → Sends s (b ∷ out) (ls_loop fuel rest (send s first))
          × ((ls_loop fuel rest (send s first)).cwd ≡ s.cwd)
    pieces first rest e le' ih =
        let size = length-append first rest in
        let total = ap length e in
        let (a, ea) = send-Sends s first (IsOpen-less (omega (arith, size, total)) o) in
        let (c, ec) =
          ih (send s first) le' (IsOpen-after (IsOpen-less (omega (arith, size, total)) o) a) in
        (rw (sym e) (Sends-both a c), ec ∙ ea)

changed :
    (s : Server) (dir : List ℕ)
    → IsOpen (length (dir ++ newline)) s
    → Sends s (dir ++ newline) (server_pwd (record s { cwd = dir }))
      × ((server_pwd (record s { cwd = dir })).cwd ≡ dir)
changed s dir o =
    let (a, e) =
      server_pwd-Sends (record s { cwd = dir })
        (record { enough = o.enough; willing = o.willing }) in
    (record { all_sent = a.all_sent; left = a.left; willing = a.willing }, e)

pub server_cd-Sends :
    (os : Os) (path : List ℕ) (s : Server)
    → IsOpen (length (answer os s.cwd (cd path)).text) s
    → Sends s (answer os s.cwd (cd path)).text (server_cd os path s)
      × ((server_cd os path s).cwd ≡ (answer os s.cwd (cd path)).cwd)
unfolding answer server_cd
server_cd-Sends os path s o = elim (Option-cases (os.chdir s.cwd (skip_spaces path))) [
  | inl e ↦ rw (e, answer, server_cd) (send-Sends s invalid_path (rw (e, answer) at o))
  | inr (dir, e) ↦ rw (e, answer, server_cd) (changed s dir (rw (e, answer) at o))
]
