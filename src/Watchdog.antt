-- ===== src/Watchdog.antt =====
-- src/nd45_dtsu666/watchdog.py: `watchdog_loop`, with the `SlowestHeartbeat` that run_app gives it. The
-- coroutine is a function of what its turns observe; systemd's socket is where a ping goes.
pub mod Pings
use nd45_dtsu666_converter.App.{slowest_age}
use nd45_dtsu666_converter.Clock.{Age, age_le}
use nd45_dtsu666_converter.Stats.{Heartbeat}
use nd45_dtsu666_converter.Base.{ℕ, Bool, List, [], ◌∷◌, if◌then◌else◌, ◌/◌}

-- One turn of the loop: the stop event as the loop tests it, the reading of the clock, and the heartbeats
-- of the poll loops at that time.
pub record WatchdogTurn : Type 0 where
  pub stop_set : Bool
  pub now : ℕ
  pub beats : List Heartbeat

-- What the loop does: a datagram to systemd, a warning with the age and its limit, or a wait for the stop
-- event with a timeout.
pub data WatchdogCall : Type 0 where
  notify_watchdog : ℕ → WatchdogCall
  withholding_ping : Age → ℕ → WatchdogCall
  wait_for_stop : ℕ → WatchdogCall

unfoldable pub watchdog_turn : ℕ → WatchdogTurn → WatchdogCall
watchdog_turn watchdog_sec t =
    let age = slowest_age t.beats t.now in
    if age_le age watchdog_sec then notify_watchdog t.now else withholding_ping age watchdog_sec

-- A tick is so fine that `watchdog_sec` has an even number of them.
unfoldable pub watchdog_loop : ℕ → List WatchdogTurn → List WatchdogCall
watchdog_loop watchdog_sec [] = []
watchdog_loop watchdog_sec (t ∷ ts) =
    let rest = watchdog_loop watchdog_sec ts in
    if t.stop_set
    then []
    else watchdog_turn watchdog_sec t ∷ wait_for_stop (watchdog_sec / 2) ∷ rest
