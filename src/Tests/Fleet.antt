-- ===== src/Tests/Fleet.antt =====
-- The server with its cap, the registry of drivers, and the generator.
use rconfig_sim.Generator.Counts.{sum-stratified_counts}
use rconfig_sim.Generator.Shuffle.{count, count-build_assignments}
use rconfig_sim.Generator.{sum, stratified_counts, build_assignments}
use rconfig_sim.Fault.{Rng}
use rconfig_sim.Base.{
  length, Bytes, codes, equal, ℕ, ◌+◌, ◌*◌, ◌≡◌, refl, none, some, List, [], ◌∷◌, arith,
}
use rconfig_sim.Server.Cap.{IsWithinCap, run_events-IsWithinCap}
use rconfig_sim.Session.{refuse_profile}
use rconfig_sim.Server.{
  set_result, get_result, release, turn_away, on_arrive, on_shake, on_leave, on_report, handle,
  run_events, Handshake, Server, Event, arrive, shake, report, leave,
}

abbrev idle : Server
idle = record { cap = 1; held = 0; active_sessions = 0; sessions_total = []; conns = [] }

-- Of three clients one is refused by its device's profile and one hits the cap.
abbrev visits : List Event
visits =
    arrive none
    ∷ arrive (some refuse_profile)
    ∷ shake 0 Handshake.done
    ∷ arrive none
    ∷ report 0 (codes "disconnect")
    ∷ leave 0
    ∷ []

visits_total :
    (run_events visits idle).sessions_total
    ≡ codes "disconnect" ∷ codes "error" ∷ codes "error" ∷ []
unfolding run_events handle on_arrive turn_away on_shake on_report on_leave release set_result
    get_result equal
visits_total = refl

run_events-IsWithinCap_example :
    IsWithinCap (run_events visits idle)
    × (length (run_events visits idle).sessions_total + length (run_events visits idle).conns ≡ 3)
run_events-IsWithinCap_example = run_events-IsWithinCap visits idle (refl, omega arith, refl)

abbrev some_ids : List Bytes
some_ids = codes "junos" ∷ [] ∷ codes "infinera" ∷ []

-- Ten devices of two models, 35 to 65.
counts_of_ten : stratified_counts 10 (35 ∷ 65 ∷ []) ≡ 3 ∷ 7 ∷ []
unfolding stratified_counts
counts_of_ten = refl

sum-stratified_counts_example : sum (stratified_counts 10 (35 ∷ 65 ∷ [])) ≡ 10
sum-stratified_counts_example = sum-stratified_counts 10 (35 ∷ 65 ∷ []) (unfold sum in refl)

abbrev a_rng : Rng
a_rng = record { draws = λ (n : ℕ). n * 7; drawn = 1 }

count-build_assignments_example : count 1 (build_assignments (3 ∷ 7 ∷ []) a_rng) ≡ 7
count-build_assignments_example = count-build_assignments 1 (3 ∷ 7 ∷ []) a_rng
