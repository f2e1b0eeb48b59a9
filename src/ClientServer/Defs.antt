-- ===== src/ClientServer/Defs.antt =====
-- The server of tlpi/client-server.c. The socket is what its reads and writes do; `chdir` and the output
-- of `ls` are parameters, by the working directory.
use mytests.Base.{ℕ, zero, suc, Bool, ◌||◌, Option, none, some}
use mytests.Base.{List, [], ◌∷◌, ◌++◌, ◌==◌, if◌then◌else◌, get_or, set, take, drop, length}
use mytests.Base.Text.{c_string, same_text, starts_with}
use mytests.ClientServer.Writen.{Write, room, interrupted, refused, writen}

-- `chdir(path)` gives the new directory; `ls` is what the command prints.
pub record Os : Type 0 where
  pub chdir : List ℕ → List ℕ → Option (List ℕ)
  pub ls : List ℕ → List ℕ

-- The working directory, the writes to come, and what was sent.
pub record Server : Type 0 where
  pub cwd : List ℕ
  pub writes : List Write
  pub sent : List ℕ

-- writen(s, buf, len), whose result the server does not look at.
unfoldable pub send : Server → List ℕ → Server
send s buf = let w = writen s.writes buf in record s { writes = w.writes; sent = s.sent ++ w.sent }

-- A plain write(s, buf, len), whose result it does not look at either.
unfoldable pub send_once : Server → List ℕ → Server
send_once s buf = elim s.writes [
  | [] ↦ s
  | w ∷ writes ↦ elim w [
    | room n ↦ record s { writes = writes; sent = s.sent ++ take (suc n) buf }
    | interrupted ↦ record s { writes = writes }
    | refused ↦ record s { writes = writes }
  ]
]

abbrev pub newline : List ℕ
newline = b'\n' ∷ []

-- "invalid path\n"
abbrev pub invalid_path : List ℕ
invalid_path =
    b'i' ∷ b'n' ∷ b'v' ∷ b'a' ∷ b'l' ∷ b'i' ∷ b'd' ∷ b' ' ∷ b'p' ∷ b'a' ∷ b't' ∷ b'h' ∷ b'\n' ∷ []

-- "unknown cmd\n"
abbrev pub unknown_cmd : List ℕ
unknown_cmd =
    b'u' ∷ b'n' ∷ b'k' ∷ b'n' ∷ b'o' ∷ b'w' ∷ b'n' ∷ b' ' ∷ b'c' ∷ b'm' ∷ b'd' ∷ b'\n' ∷ []

abbrev pub pwd_text : List ℕ
pwd_text = b'p' ∷ b'w' ∷ b'd' ∷ []

abbrev pub cd_text : List ℕ
cd_text = b'c' ∷ b'd' ∷ []

abbrev pub cd_space : List ℕ
cd_space = b'c' ∷ b'd' ∷ b' ' ∷ []

abbrev pub ls_text : List ℕ
ls_text = b'l' ∷ b's' ∷ []

abbrev pub quit_text : List ℕ
quit_text = b'q' ∷ b'u' ∷ b'i' ∷ b't' ∷ []

unfoldable pub server_pwd : Server → Server
unfolding send
server_pwd s = send (send s s.cwd) newline

-- `while (*path == ' ') ++path;`
unfoldable pub skip_spaces : List ℕ → List ℕ
skip_spaces [] = []
skip_spaces (b ∷ path) = let rest = skip_spaces path in if b == b' ' then rest else b ∷ path

unfoldable pub server_cd : Os → List ℕ → Server → Server
unfolding send server_pwd skip_spaces
server_cd os path s = elim (os.chdir s.cwd (skip_spaces path)) [
  | some dir ↦ server_pwd (record s { cwd = dir })
  | none ↦ send s invalid_path
]

-- The loop over the 128 bytes that `fread` gives at most, on fuel.
unfoldable pub ls_loop : ℕ → List ℕ → Server → Server
unfolding send
ls_loop fuel [] s = s
ls_loop zero (b ∷ out) s = s
ls_loop (suc fuel) (b ∷ out) s = ls_loop fuel (drop 128 (b ∷ out)) (send s (take 128 (b ∷ out)))

-- Each round takes a byte or more.
unfoldable pub server_ls : Os → Server → Server
unfolding ls_loop
server_ls os s = ls_loop (length (os.ls s.cwd)) (os.ls s.cwd) s

unfoldable pub is_blank : ℕ → Bool
is_blank b = b == b'\n' || b == b'\r' || b == b'\t' || b == b' '

-- The loop that truncates the line, from `ret` on.
unfoldable pub truncate_loop : ℕ → List ℕ → List ℕ
unfolding is_blank
truncate_loop zero buf = buf
truncate_loop (suc ret) buf =
    let rest = truncate_loop ret (set buf ret 0) in
    if is_blank (get_or buf ret 0) then rest else buf

-- The command that `strcmp` sees in the buffer.
unfoldable pub command : List ℕ → List ℕ
unfolding truncate_loop
command bytes = c_string (truncate_loop (length bytes) (bytes ++ (0 ∷ [])))

-- What a command leads to: the next read, or the end after "quit".
pub data After : Type 0 where
  next : Server → After
  closed : Server → After

unfoldable pub run_command : Os → List ℕ → List ℕ → Server → After
unfolding server_pwd server_cd server_ls send_once
run_command os home cmd s =
    if same_text cmd pwd_text
    then next (server_pwd s)
    else if same_text cmd cd_text
    then next (server_cd os home s)
    else if starts_with cmd cd_space
    then next (server_cd os (drop 3 cmd) s)
    else if same_text cmd ls_text
    then next (server_ls os s)
    else if same_text cmd quit_text
    then closed s
    else next (send_once s unknown_cmd)

-- What a `read` of the server does: bytes, of which none is the end of the stream, EINTR, or an error.
pub data Read : Type 0 where
  got : List ℕ → Read
  eintr failed : Read

-- How the server ends; `reading` waits for more.
pub data End : Type 0 where
  gone quit reading : End

-- The loop of the server, over what its reads do.
unfoldable pub server : Os → List ℕ → List Read → Server → End × Server
unfolding command run_command
server os home [] s = (reading, s)
server os home (eintr ∷ reads) s = server os home reads s
server os home (failed ∷ reads) s = (gone, s)
server os home (got [] ∷ reads) s = (gone, s)
server os home (got (b ∷ bytes) ∷ reads) s = elim (run_command os home (command (b ∷ bytes)) s) [
  | next s' ↦ server os home reads s'
  | closed s' ↦ (quit, s')
]
