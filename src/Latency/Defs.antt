-- ===== src/Latency/Defs.antt =====
-- test_latency of c2c-lat/c2c-lat.cc: its two threads, one shared access at a time. Memory is sequentially
-- consistent. compare_exchange_weak may fail although the value is the expected one.
use mytests.Base.{ℕ, zero, suc, Bool, ◌==◌, if◌then◌else◌}

-- Where the helper thread is, before its next shared access; `helper_end` is after its last one.
pub data Peer : Type 0 where
  test_stop store_one exchange_one store_stopped helper_end : Peer

-- Where the main thread is: it waits for the helper, runs a round after which `left` are to go, and stops the
-- helper.
pub data Main : Type 0 where
  await_one : Main
  store_zero : (left : ℕ) → Main
  exchange_zero : (left : ℕ) → Main
  store_stop await_stopped unblock join joined : Main

pub record State : Type 0 where
  pub peer : Peer
  pub main : Main
  pub shared : ℕ
  pub stop_token : ℕ

-- The access of the helper. `strong` is whether its compare_exchange_weak, if it makes one, does not
-- fail for no reason.
unfoldable pub peer_step : Bool → State → State
peer_step strong s = elim s.peer [
  | test_stop ↦
      if s.stop_token == 0 then record s { peer = store_one } else record s { peer = store_stopped }
  | store_one ↦ record s { peer = exchange_one; shared = 1 }
  | exchange_one ↦
      let exchanged = if s.shared == 0 then record s { peer = test_stop; shared = 1 } else s in
      if strong then exchanged else s
  | store_stopped ↦ record s { peer = helper_end; stop_token = 2 }
  | helper_end ↦ s
]

-- What follows a round after which `left` are to go; `more` is _loops - 1.
unfoldable pub next_round : ℕ → Bool → ℕ → Main
next_round more busy_loop zero = if busy_loop then store_zero more else store_stop
next_round more busy_loop (suc left) = store_zero left

-- The access of the main thread.
unfoldable pub main_step : ℕ → Bool → Bool → State → State
unfolding next_round
main_step more busy_loop strong s = elim s.main [
  | await_one ↦ if s.shared == 0 then s else record s { main = store_zero more }
  | store_zero left ↦ record s { main = exchange_zero left; shared = 0 }
  | exchange_zero left ↦
      let exchanged =
        if s.shared == 1
        then record s { main = next_round more busy_loop left; shared = 0 }
        else s in
      if strong then exchanged else s
  | store_stop ↦ record s { main = await_stopped; stop_token = 1 }
  | await_stopped ↦
      if s.stop_token == 2 then record s { main = join } else record s { main = unblock }
  | unblock ↦ record s { main = await_stopped; shared = 0 }
  | join ↦ elim s.peer [ helper_end ↦ record s { main = joined } | _ ↦ s ]
  | joined ↦ s
]

-- After the initialisation of the two variables and the start of the helper.
abbrev pub started : State
started = record { peer = test_stop; main = await_one; shared = 0; stop_token = 0 }

-- One access of either thread.
pub data Step (more : ℕ) (busy_loop : Bool) : State → State → Type 0 where
  peer_moves : (strong : Bool) (s : State) → Step more busy_loop s (peer_step strong s)
  main_moves :
      (strong : Bool) (s : State) → Step more busy_loop s (main_step more busy_loop strong s)

-- Any number of accesses.
pub data Steps (more : ℕ) (busy_loop : Bool) : State → State → Type 0 where
  done : (s : State) → Steps more busy_loop s s
  then_step :
      (s t u : State)
      → Step more busy_loop s t
      → Steps more busy_loop t u
      → Steps more busy_loop s u
