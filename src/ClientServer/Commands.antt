-- ===== src/ClientServer/Commands.antt =====
-- Each command of tlpi/client-server.c's server gives its answer.
use mytests.Base.{ℕ, suc, ◌<◌, ◌≡◌, ◌≢◌, refl, arith, inl, inr, Bool-cases}
use mytests.Base.{List, ◌∷◌, ◌++◌, take, drop, length, length-append, length-take}
use mytests.Base.Text.{same_text, starts_with}
use mytests.ClientServer.Writen.{Write, room}
use mytests.ClientServer.Defs.{
  Os, Server, send_once, unknown_cmd, pwd_text, cd_text, cd_space, ls_text, quit_text, server_pwd,
  server_cd, server_ls, After, next, closed, run_command,
}
use mytests.ClientServer.Session.{
  Command, pwd, ls, quit_cmd, unknown, cd, command_of, Answer, answer,
}
use mytests.ClientServer.Sends.{Sends, IsOpen, server_pwd-Sends, ls_loop-Sends, server_cd-Sends}

-- What a known command leads to.
pub record Runs (s : Server) (a : Answer) (r : After) : Type 0 where
  pub after : Server
  pub goes_on : r ≡ next after
  pub sends : Sends s a.text after
  pub moves : after.cwd ≡ a.cwd

runs :
    {s : Server} {a : Answer} {r : After} (s' : Server)
    → r ≡ next s'
    → Sends s a.text s' × (s'.cwd ≡ a.cwd)
    → Runs s a r
runs s' e (h, k) = record { after = s'; goes_on = e; sends = h; moves = k }

pwd-Runs :
    (os : Os) (s : Server)
    → IsOpen (length (answer os s.cwd pwd).text) s
    → Runs s (answer os s.cwd pwd) (next (server_pwd s))
unfolding answer
pwd-Runs os s o = runs (server_pwd s) refl (server_pwd-Sends s o)

ls-Runs :
    (os : Os) (s : Server)
    → IsOpen (length (answer os s.cwd ls).text) s
    → Runs s (answer os s.cwd ls) (next (server_ls os s))
unfolding answer server_ls
ls-Runs os s o =
    runs (server_ls os s) refl
      (ls_loop-Sends (length (os.ls s.cwd)) (os.ls s.cwd) s (omega arith) o)

cd-Runs :
    (os : Os) (path : List ℕ) (s : Server)
    → IsOpen (length (answer os s.cwd (cd path)).text) s
    → Runs s (answer os s.cwd (cd path)) (next (server_cd os path s))
cd-Runs os path s o = runs (server_cd os path s) refl (server_cd-Sends os path s o)

-- What a command of the server does, against its answer.
abbrev pub Does : Os → Server → Command → After → Type 0
Does os s quit_cmd r = r ≡ closed s
Does os s unknown r = ⊥
Does os s pwd r = Runs s (answer os s.cwd pwd) r
Does os s ls r = Runs s (answer os s.cwd ls) r
Does os s (cd path) r = Runs s (answer os s.cwd (cd path)) r

pub run_command-Does :
    (os : Os) (home cmd : List ℕ) (s : Server)
    → command_of home cmd ≢ unknown
    → IsOpen (length (answer os s.cwd (command_of home cmd)).text) s
    → Does os s (command_of home cmd) (run_command os home cmd s)
unfolding run_command command_of
run_command-Does os home cmd s known o = elim (Bool-cases (same_text cmd pwd_text)) [
  | inl e ↦ rw (e) (pwd-Runs os s (rw (e) at o))
  | inr e₁ ↦ elim (Bool-cases (same_text cmd cd_text)) [
    | inl e ↦ rw (e₁, e) (cd-Runs os home s (rw (e₁, e) at o))
    | inr e₂ ↦ elim (Bool-cases (starts_with cmd cd_space)) [
      | inl e ↦ rw (e₁, e₂, e) (cd-Runs os (drop 3 cmd) s (rw (e₁, e₂, e) at o))
      | inr e₃ ↦ elim (Bool-cases (same_text cmd ls_text)) [
        | inl e ↦ rw (e₁, e₂, e₃, e) (ls-Runs os s (rw (e₁, e₂, e₃, e) at o))
        | inr e₄ ↦ elim (Bool-cases (same_text cmd quit_text)) [
          | inl e ↦ rw (e₁, e₂, e₃, e₄, e) refl
          | inr e ↦ rw (e₁, e₂, e₃, e₄, e) ((rw (e₁, e₂, e₃, e₄, e) at known) refl)
        ]
      ]
    ]
  ]
]

-- The answer to an unknown command is one write, whose result is not looked at: where the socket has room
-- for fewer than its twelve bytes, the answer is cut short and the server goes on.
pub run_command-cut :
    (os : Os) (home cmd : List ℕ) (s : Server) (n : ℕ) (writes : List Write)
    → command_of home cmd ≡ unknown
    → s.writes ≡ room n ∷ writes
    → n < 11
    → (s' : Server) × (run_command os home cmd s ≡ next s')
      × (s'.sent ≡ s.sent ++ take (suc n) unknown_cmd)
      × (length s'.sent < length (s.sent ++ unknown_cmd))
unfolding run_command command_of send_once
run_command-cut os home cmd s n writes e ew lt = (
  send_once s unknown_cmd,
  unknown_lem,
  rw (ew) refl,
  rw (ew) (
      omega (
        arith,
        length-append s.sent (take (suc n) unknown_cmd),
        length-append s.sent unknown_cmd,
        length-take (suc n) unknown_cmd,
      )),
)
  where
    unknown_lem : run_command os home cmd s ≡ next (send_once s unknown_cmd)
    unknown_lem = ground (arith, e)
