-- ===== src/Latency/Examples.antt =====
-- Runs of c2c-lat/c2c-lat.cc.
use mytests.Base.{◌≡◌, ◌≤◌, refl, true, none, [], ◌∷◌}
use mytests.Base.Integer.{pos}
use mytests.Latency.Defs.{
  State, exchange_one, helper_end, store_zero, joined, peer_step, main_step, started, peer_moves,
  main_moves, Steps, done, then_step,
}
use mytests.Latency.Options.{peer_cpu, Numbers, main_options, returns, tested_peers, defaults}
use mytests.Latency.Ending.{CanEnd, test_latency-CanEnd}
use mytests.Latency.Tests.{IsTest, main_options-IsTest}

-- The helper has stored 1 and waits for 0; the main thread has seen it.
abbrev begun : State
begun = record { peer = exchange_one; main = store_zero 2; shared = 1; stop_token = 0 }

to_begun : Steps 2 true started begun
unfolding peer_step main_step
to_begun =
    let s1 = peer_step true started in
    let s2 = peer_step true s1 in
    then_step started s1 begun (peer_moves true started) (
      then_step s1 s2 begun (peer_moves true s1)
        (then_step s2 begun begun (main_moves true s2) (done begun)))

test_latency-CanEnd_example :
    (begun.shared ≤ 1) × (begun.main ≡ joined → begun.peer ≡ helper_end) × CanEnd 2 begun
test_latency-CanEnd_example = test_latency-CanEnd 2 true begun to_begun

-- Texts of one digit.
abbrev digits_only : Numbers
digits_only = record { atoi = λ text. pos 3; stoi = λ base text. none }

three_peers : tested_peers 4 defaults ≡ 1 ∷ 2 ∷ 3 ∷ []
unfolding tested_peers
three_peers = refl

too_large : main_options digits_only 2 (peer_cpu (b'3' ∷ []) ∷ []) none ≡ returns 1
unfolding main_options
too_large = refl

main_options-IsTest_example : IsTest 4 (main_options digits_only 4 (peer_cpu (b'3' ∷ []) ∷ []) none)
main_options-IsTest_example = main_options-IsTest digits_only 4 (peer_cpu (b'3' ∷ []) ∷ []) none
