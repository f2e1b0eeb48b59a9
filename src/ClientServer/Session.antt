-- ===== src/ClientServer/Session.antt =====
-- The conversation that the server of tlpi/client-server.c holds, and what its commands answer.
use mytests.Base.{ℕ, ◌≢◌}
use mytests.Base.{none, some, List, [], ◌∷◌, ◌++◌, drop, if◌then◌else◌}
use mytests.Base.Text.{same_text, starts_with}
use mytests.ClientServer.Defs.{
  Os, newline, invalid_path, unknown_cmd, pwd_text, cd_text, cd_space, ls_text, quit_text,
  skip_spaces, command, Read, got, eintr, failed, End, gone, quit, reading,
}

-- The commands.
pub data Command : Type 0 where
  pwd ls quit_cmd unknown : Command
  cd : List ℕ → Command

unfoldable pub command_of : List ℕ → List ℕ → Command
command_of home cmd =
    if same_text cmd pwd_text
    then pwd
    else if same_text cmd cd_text
    then cd home
    else if starts_with cmd cd_space
    then cd (drop 3 cmd)
    else if same_text cmd ls_text
    then ls
    else if same_text cmd quit_text
    then quit_cmd
    else unknown

-- What a command answers, and the directory after it.
pub record Answer : Type 0 where
  pub text : List ℕ
  pub cwd : List ℕ

unfoldable pub answer : Os → List ℕ → Command → Answer
answer os cwd pwd = record { text = cwd ++ newline; cwd = cwd }
answer os cwd (cd path) = elim (os.chdir cwd (skip_spaces path)) [
  | some dir ↦ record { text = dir ++ newline; cwd = dir }
  | none ↦ record { text = invalid_path; cwd = cwd }
]
answer os cwd ls = record { text = os.ls cwd; cwd = cwd }
answer os cwd quit_cmd = record { text = []; cwd = cwd }
answer os cwd unknown = record { text = unknown_cmd; cwd = cwd }

-- A conversation: how it ends, the answers one behind the other, and the last directory.
pub record Talk : Type 0 where
  pub end : End
  pub text : List ℕ
  pub cwd : List ℕ

unfoldable pub say : List ℕ → Talk → Talk
say text t = record t { text = text ++ t.text }

-- "quit" ends the conversation, with no answer.
unfoldable pub after_command : Command → Answer → Talk → List ℕ → Talk
after_command quit_cmd a later cwd = record { end = quit; text = []; cwd = cwd }
after_command pwd a later cwd = say a.text later
after_command ls a later cwd = say a.text later
after_command unknown a later cwd = say a.text later
after_command (cd path) a later cwd = say a.text later

unfoldable pub talk : Os → List ℕ → List Read → List ℕ → Talk
talk os home [] cwd = record { end = reading; text = []; cwd = cwd }
talk os home (eintr ∷ reads) cwd = talk os home reads cwd
talk os home (failed ∷ reads) cwd = record { end = gone; text = []; cwd = cwd }
talk os home (got [] ∷ reads) cwd = record { end = gone; text = []; cwd = cwd }
talk os home (got (b ∷ bytes) ∷ reads) cwd =
    let c = command_of home (command (b ∷ bytes)) in
    let a = answer os cwd c in after_command c a (talk os home reads a.cwd) cwd

-- No command is unknown.
abbrev pub IsKnown : List ℕ → Read → Type 0
IsKnown home (got bytes) = command_of home (command bytes) ≢ unknown
IsKnown home eintr = Unit
IsKnown home failed = Unit
