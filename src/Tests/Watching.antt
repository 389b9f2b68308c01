-- ===== src/Tests/Watching.antt =====
-- The watchdog over concrete turns: one poll loop goes on, the other is stuck.
use nd45_dtsu666_converter.Watchdog.Pings.{
  watchdog_loop_stalled, watchdog_loop_healthy, pings, Within, times,
}
use nd45_dtsu666_converter.Watchdog.{watchdog_loop, watchdog_turn, WatchdogTurn}
use nd45_dtsu666_converter.Stats.{Heartbeat, heartbeat_age}
use nd45_dtsu666_converter.App.{slowest_age}
use nd45_dtsu666_converter.Base.{ℕ, List, [], ◌∷◌, some, inl, inr, refl, ◌≡◌, false, All, arith}

abbrev beat : ℕ → Heartbeat
beat t = record { last = some t }

abbrev turn : ℕ → List Heartbeat → WatchdogTurn
turn now beats = record { stop_set = false; now = now; beats = beats }

abbrev stuck_turns : List WatchdogTurn
stuck_turns =
    turn 20 (beat 18 ∷ beat 10 ∷ [])
    ∷ turn 35 (beat 33 ∷ beat 10 ∷ [])
    ∷ turn 50 (beat 48 ∷ beat 10 ∷ [])
    ∷ turn 65 (beat 64 ∷ beat 10 ∷ [])
    ∷ []

pings_stuck : pings (watchdog_loop 30 stuck_turns) ≡ 20 ∷ 35 ∷ []
unfolding watchdog_loop watchdog_turn slowest_age heartbeat_age
pings_stuck = refl

watchdog_loop_stalled_example : All (Within 30 (some 10)) (pings (watchdog_loop 30 stuck_turns))
watchdog_loop_stalled_example =
    watchdog_loop_stalled 30 (some 10) stuck_turns
      (inr (inl refl), (inr (inl refl), (inr (inl refl), (inr (inl refl), tt))))

abbrev healthy_turns : List WatchdogTurn
healthy_turns = turn 20 (beat 18 ∷ beat 10 ∷ []) ∷ turn 35 (beat 33 ∷ beat 30 ∷ []) ∷ []

watchdog_loop_healthy_example : pings (watchdog_loop 30 healthy_turns) ≡ times healthy_turns
watchdog_loop_healthy_example =
    watchdog_loop_healthy 30 healthy_turns
      ((refl, (omega arith, (omega arith, tt))), ((refl, (omega arith, (omega arith, tt))), tt))
