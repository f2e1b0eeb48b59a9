-- ===== src/ClientServer/Talking.antt =====
-- The server of tlpi/client-server.c holds the conversation of Session.antt.
use mytests.Base.{ℕ, ◌≤◌, ◌≡◌, refl, ap, sym, ◌∙◌, arith}
use mytests.Base.{List, [], ◌∷◌, ◌++◌, length, All, length-append}
use mathlib.Core.List.{append_assoc, append-nil}
use mathlib.Core.Path.{subst}
use mytests.ClientServer.Writen.{rooms, IsWilling}
use mytests.ClientServer.Defs.{
  Os, Server, command, After, next, closed, run_command, Read, got, eintr, failed, End, gone, quit,
  reading, server,
}
use mytests.ClientServer.Session.{
  Command, pwd, ls, quit_cmd, unknown, cd, command_of, Answer, answer, Talk, say, after_command,
  talk, IsKnown,
}
use mytests.ClientServer.Sends.{IsOpen, IsOpen-after, IsOpen-less}
use mytests.ClientServer.Commands.{Runs, Does, run_command-Does}

-- The server's state and its end are those of the conversation.
record Follows (sent : List ℕ) (t : Talk) (r : End × Server) : Type 0 where
  end : r.0 ≡ t.end
  answered : r.1.sent ≡ sent ++ t.text
  cwd : r.1.cwd ≡ t.cwd

stays : (s : Server) (e : End) → Follows s.sent (record { end = e; text = []; cwd = s.cwd }) (e, s)
stays s e = record { end = refl; answered = sym (append-nil s.sent); cwd = refl }

-- The rest of the server, after a command.
abbrev rest_of : Os → List ℕ → List Read → After → End × Server
rest_of os home reads (next s) = server os home reads s
rest_of os home reads (closed s) = (quit, s)

-- The rest of a conversation, in any state that has room for it.
abbrev Rest : Os → List ℕ → List Read → Type 0
Rest os home reads =
    (s : Server) (dir : List ℕ)
    → s.cwd ≡ dir
    → IsOpen (length (talk os home reads dir).text) s
    → Follows s.sent (talk os home reads dir) (server os home reads s)

say-Follows :
    (os : Os) (home : List ℕ) (reads : List Read) (s : Server) (a : Answer) (r : After)
    → Runs s a r
    → IsOpen (length (say a.text (talk os home reads a.cwd)).text) s
    → Rest os home reads
    → Follows s.sent (say a.text (talk os home reads a.cwd)) (rest_of os home reads r)
unfolding say
say-Follows os home reads s a r h o rest =
    let size = length-append a.text (talk os home reads a.cwd).text in
    let o' = IsOpen-after (IsOpen-less (omega (arith, size)) o) h.sends in
    let later = rest h.after a.cwd h.moves o' in
    rw (h.goes_on) (record {
      end = later.end;
      answered =
          later.answered
          ∙ ap (λ (t : List ℕ). t ++ (talk os home reads a.cwd).text) h.sends.all_sent
          ∙ append_assoc s.sent a.text (talk os home reads a.cwd).text;
      cwd = later.cwd;
    })

after_command-Follows :
    (os : Os) (home : List ℕ) (reads : List Read) (s : Server) (c : Command) (r : After)
    → Does os s c r
    → let a = answer os s.cwd c in
      let t = after_command c a (talk os home reads a.cwd) s.cwd in
      IsOpen (length t.text) s → Rest os home reads → Follows s.sent t (rest_of os home reads r)
unfolding after_command
after_command-Follows os home reads s quit_cmd r h o rest = rw (h) (stays s quit)
after_command-Follows os home reads s unknown r h o rest = absurd h
after_command-Follows os home reads s pwd r h o rest = say-Follows os home reads s _ r h o rest
after_command-Follows os home reads s ls r h o rest = say-Follows os home reads s _ r h o rest
after_command-Follows os home reads s (cd path) r h o rest =
    say-Follows os home reads s _ r h o rest

stays_at :
    (s : Server) (dir : List ℕ) (e : End)
    → s.cwd ≡ dir
    → Follows s.sent (record { end = e; text = []; cwd = dir }) (e, s)
stays_at s dir e h = record { end = refl; answered = sym (append-nil s.sent); cwd = h }

IsOpen-answer :
    (os : Os) (s : Server) (c : Command) (later : Talk)
    → IsOpen (length (after_command c (answer os s.cwd c) later s.cwd).text) s
    → IsOpen (length (answer os s.cwd c).text) s
unfolding after_command answer say
IsOpen-answer os s quit_cmd later o = IsOpen-less (omega arith) o
IsOpen-answer os s pwd later o =
    IsOpen-less (omega (arith, length-append (answer os s.cwd pwd).text later.text)) o
IsOpen-answer os s ls later o =
    IsOpen-less (omega (arith, length-append (answer os s.cwd ls).text later.text)) o
IsOpen-answer os s unknown later o =
    IsOpen-less (omega (arith, length-append (answer os s.cwd unknown).text later.text)) o
IsOpen-answer os s (cd path) later o =
    IsOpen-less (omega (arith, length-append (answer os s.cwd (cd path)).text later.text)) o

server-Rest :
    (os : Os) (home : List ℕ) (reads : List Read) → All (IsKnown home) reads → Rest os home reads
unfolding talk server
server-Rest os home [] known s dir e o = stays_at s dir reading e
server-Rest os home (eintr ∷ reads) (_, known) s dir e o = server-Rest os home reads known s dir e o
server-Rest os home (failed ∷ reads) known s dir e o = stays_at s dir gone e
server-Rest os home (got [] ∷ reads) known s dir e o = stays_at s dir gone e
server-Rest os home (got (b ∷ bytes) ∷ reads) (k, known) s dir e o =
    subst
      (λ (d : List ℕ).
        IsOpen (length (talk os home (got (b ∷ bytes) ∷ reads) d).text) s
        → Follows s.sent (talk os home (got (b ∷ bytes) ∷ reads) d)
            (server os home (got (b ∷ bytes) ∷ reads) s))
      e (here (server-Rest os home reads known)) o
  where
    follows :
        (r : After) (t : Talk)
        → Follows s.sent t (rest_of os home reads r)
        → Follows s.sent t (elim r [ next s' ↦ server os home reads s' | closed s' ↦ (quit, s') ])
    follows (next s') t h = h
    follows (closed s') t h = h

    here :
        Rest os home reads
        → IsOpen (length (talk os home (got (b ∷ bytes) ∷ reads) s.cwd).text) s
        → Follows s.sent
            (talk os home (got (b ∷ bytes) ∷ reads) s.cwd)
            (server os home (got (b ∷ bytes) ∷ reads) s)
    here rest o' =
        let cmd = command (b ∷ bytes) in
        let c = command_of home cmd in
        let r = run_command os home cmd s in
        let does = run_command-Does os home cmd s k (IsOpen-answer os s c _ o') in
        follows r _ (after_command-Follows os home reads s c r does o' rest)

-- On a socket that refuses no write and whose writes, interrupted ones aside, are at least as many as the
-- bytes of the answers, the server that is sent known commands only behaves as the conversation: it ends as
-- that does, it has sent the answers in full and in order, whatever the sizes that the writes took, and it
-- is in the directory of the last "cd" that succeeded.
pub server-talk :
    (os : Os) (home : List ℕ) (reads : List Read) (s : Server)
    → All (IsKnown home) reads
    → All IsWilling s.writes
    → length (talk os home reads s.cwd).text ≤ rooms s.writes
    → ((server os home reads s).0 ≡ (talk os home reads s.cwd).end)
      × ((server os home reads s).1.sent ≡ s.sent ++ (talk os home reads s.cwd).text)
      × ((server os home reads s).1.cwd ≡ (talk os home reads s.cwd).cwd)
server-talk os home reads s known willing enough =
    let h =
      server-Rest os home reads known s s.cwd refl
        (record { enough = enough; willing = willing }) in
    (h.end, h.answered, h.cwd)
