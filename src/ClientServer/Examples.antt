-- ===== src/ClientServer/Examples.antt =====
-- A run of tlpi/client-server.c, and the theorems there.
use mytests.Base.{
  ℕ, ◌≡◌, refl, arith, true, false, Option, none, some, List, [], ◌∷◌, if◌then◌else◌,
}
use mytests.Base.Text.{c_string, same_text, starts_with}
use mytests.ClientServer.Writen.{room, interrupted, refused, writen, count_round, rooms}
use mytests.ClientServer.Defs.{
  Os, Server, quit, ls_text, Read, got, eintr, send, server_pwd, skip_spaces, server_cd, is_blank,
  truncate_loop, command, run_command, server,
}
use mytests.ClientServer.Client.{Stream, Client, Poll, again, ready}
use mytests.ClientServer.Client
use mytests.ClientServer.Lines.{Line, command-Line}
use mytests.ClientServer.Session.{command_of, answer, say, after_command, talk}
use mytests.ClientServer.Talking.{server-talk}
use mytests.ClientServer.Copying.{input, carried, StartsWith, client-begins}

-- The only directory that `chdir` finds is "/a".
chdir : List ℕ → List ℕ → Option (List ℕ)
chdir cwd path = if same_text path (b'/' ∷ b'a' ∷ []) then some path else none

abbrev os : Os
os = record { chdir = chdir; ls = λ cwd. b'x' ∷ b'\n' ∷ [] }

abbrev home : List ℕ
home = b'/' ∷ []

-- "cd  /a\r\n", an interrupted read, "quit\n"
abbrev reads : List Read
reads =
    got (b'c' ∷ b'd' ∷ b' ' ∷ b' ' ∷ b'/' ∷ b'a' ∷ b'\r' ∷ b'\n' ∷ [])
    ∷ eintr
    ∷ got (b'q' ∷ b'u' ∷ b'i' ∷ b't' ∷ b'\n' ∷ [])
    ∷ []

-- The first write takes one byte of two.
abbrev fresh : Server
fresh = record { cwd = home; writes = room 0 ∷ interrupted ∷ room 7 ∷ room 0 ∷ []; sent = [] }

moves :
    server os home reads fresh
    ≡ (quit, record { cwd = b'/' ∷ b'a' ∷ []; writes = []; sent = b'/' ∷ b'a' ∷ b'\n' ∷ [] })
unfolding server run_command command truncate_loop is_blank server_cd skip_spaces server_pwd send
    writen count_round chdir same_text starts_with c_string
moves = refl

server-talk_example :
    ((server os home reads fresh).0 ≡ (talk os home reads home).end)
    × ((server os home reads fresh).1.sent ≡ (talk os home reads home).text)
    × ((server os home reads fresh).1.cwd ≡ (talk os home reads home).cwd)
unfolding talk say after_command answer command_of command truncate_loop is_blank skip_spaces chdir
    same_text starts_with c_string rooms
server-talk_example =
    server-talk os home reads fresh (λ e. ground (arith, e), (tt, (λ e. ground (arith, e), tt)))
      (tt, (tt, (tt, (tt, tt)))) (omega arith)

command-Line_example :
    (text : List ℕ) × (blanks : List ℕ) × Line (b'l' ∷ b's' ∷ b' ' ∷ b'\n' ∷ []) text blanks
    × (command (b'l' ∷ b's' ∷ b' ' ∷ b'\n' ∷ []) ≡ c_string text)
command-Line_example = command-Line (b'l' ∷ b's' ∷ b' ' ∷ b'\n' ∷ [])

finds_ls : command (b'l' ∷ b's' ∷ b' ' ∷ b'\n' ∷ []) ≡ ls_text
unfolding command truncate_loop is_blank c_string
finds_ls = refl

-- Three bytes of stdin in two reads, of which the socket refuses the last one.
abbrev both : Client
both = record {
  to_socket = record {
    reads = Client.got (1 ∷ 2 ∷ []) ∷ Client.eagain ∷ Client.eintr ∷ Client.got (3 ∷ []) ∷ [];
    writes = room 0 ∷ room 0 ∷ refused ∷ [];
    copied = [];
  };
  to_stdout = record { reads = Client.eagain ∷ []; writes = []; copied = [] };
}

abbrev polls : List Poll
polls = ready true true false ∷ again ∷ ready true false false ∷ []

stops : (Client.client polls both).1.to_socket.copied ≡ 1 ∷ 2 ∷ []
unfolding Client.client Client.pump Client.pump_loop Client.after_writen Client.side_of writen
    count_round
stops = refl

client-begins_example :
    let c' = (Client.client polls both).1 in
    StartsWith (1 ∷ 2 ∷ 3 ∷ []) c'.to_socket.copied × StartsWith [] c'.to_stdout.copied
unfolding carried input
client-begins_example = client-begins polls both
