-- ===== src/Transfer/Examples.antt =====
-- A file of two chunks, and the theorems there.
use mytests.Base.{
  suc, false, ◌-◌, Option, ℕ, ◌≡◌, refl, arith, true, none, some, List, [], ◌∷◌, map, replicate,
}
use mytests.Transfer.Defs.{
  Outcome, ok, overrun, Os, Server, Transfer, run, connected, server_on_completion,
}
use mytests.Connect.Calls
use mytests.Transfer.Loop.{
  Program, Callbacks, event_loop, handle_event, build_connection, call_back, tests, notes,
}
use mytests.Transfer.Exits.{until_disconnect, event_loop-until_disconnect}
use mytests.Transfer.Chunks.{concat, IsTransferred}
use mytests.Transfer.Delivery.{transfer-IsTransferred, server_on_completion-overrun}

-- Every call of the operating system succeeds.
abbrev willing : Os
willing = record { opens = λ _. true; writes = λ _. true }

abbrev name : List ℕ
name = 97 ∷ 46 ∷ 98 ∷ []

abbrev chunks : List (List ℕ)
chunks = (1 ∷ 2 ∷ 3 ∷ []) ∷ (4 ∷ []) ∷ []

abbrev memory : List ℕ
memory = replicate 256 0xee

transfer-IsTransferred_example :
    (t : Transfer) × (run willing 10 (connected 0x1000 7 (map some chunks) name memory) ≡ ok t)
    × IsTransferred name (concat chunks) t
transfer-IsTransferred_example =
    transfer-IsTransferred willing 0x1000 7 name memory chunks 10
      (omega arith, omega arith, omega arith) refl
      ((omega arith, omega arith, refl), ((omega arith, omega arith, refl), tt)) (omega arith)

-- The server before the name comes.
abbrev waiting_server : Server
waiting_server = record {
  buffer = replicate 300 0x61;
  addr = 0x1000;
  rkey = 7;
  msg = mytests.Transfer.Defs.Message.msg_invalid;
  file_name = 0 ∷ replicate 255 0xee;
  opened = none;
  file = [];
  receives = 0;
  sends = 0;
}

server_on_completion-overrun_example : server_on_completion willing waiting_server 300 ≡ overrun
server_on_completion-overrun_example =
    server_on_completion-overrun willing waiting_server 300 refl (omega arith)

-- A program that counts its connections: one callback before the connection, none on it.
counts_up : ℕ → Program ℕ → Calls.Result (Program ℕ)
counts_up id p = Calls.ok (record p { app = suc p.app })

counts_down : ℕ → Program ℕ → Calls.Result (Program ℕ)
counts_down id p = Calls.ok (record p { app = p.app - 1 })

abbrev counting : Callbacks ℕ
counting = record {
  on_pre_conn = some counts_up;
  on_connect = none;
  on_disconnect = some counts_down;
}

abbrev all_succeed : Calls.Answers
all_succeed log c = true

abbrev of : Calls.EventType → ℕ → Calls.Event
of t id = record { event = t; id = id; verbs = 7 }

abbrev program : Program ℕ
program = record { device = record { s_ctx = none; log = [] }; app = 0 }

-- The last event is one that the loop would die of.
abbrev events : List Calls.Event
events =
    of Calls.addr_resolved 1
    ∷ of Calls.route_resolved 1
    ∷ of Calls.established 1
    ∷ of Calls.disconnected 1
    ∷ of Calls.unknown 1
    ∷ []

app_of : Calls.Result (Program ℕ) → Option ℕ
app_of (Calls.ok p) = some p.app
app_of _ = none

exits : app_of (event_loop all_succeed counting true events program) ≡ some 0
unfolding app_of event_loop handle_event build_connection call_back tests notes counts_up
    counts_down Calls.build_context Calls.attempt Calls.note
exits = refl

event_loop-until_disconnect_example :
    event_loop all_succeed counting true events program
    ≡ event_loop all_succeed counting false
        (of Calls.addr_resolved 1
          ∷ of Calls.route_resolved 1
          ∷ of Calls.established 1
          ∷ of Calls.disconnected 1
          ∷ [])
        program
unfolding until_disconnect
event_loop-until_disconnect_example =
    event_loop-until_disconnect all_succeed counting events program
