-- ===== src/Stats.antt =====
-- src/nd45_dtsu666/metrics.py: the counters that the running bridges feed and the endpoint reads,
-- and src/nd45_dtsu666/watchdog.py: `Heartbeat`.
use nd45_dtsu666_converter.Base.{some, none, Option, false, true, Bool, ◌+◌, Exc, if◌then◌else◌, ℕ}
use nd45_dtsu666_converter.Clock.{Age, age_since}

pub record PollStats : Type 0 where
  pub polls_ok : ℕ
  pub polls_failed : ℕ
  pub consecutive_failures : ℕ
  pub last_ok_ts : Option ℕ
  pub last_error_ts : Option ℕ
  pub last_error_type : Option Exc

abbrev pub new_poll_stats : PollStats
new_poll_stats = record {
  polls_ok = 0;
  polls_failed = 0;
  consecutive_failures = 0;
  last_ok_ts = none;
  last_error_ts = none;
  last_error_type = none;
}

unfoldable pub record_ok : PollStats → ℕ → PollStats
record_ok s ts = record s {
  polls_ok = s.polls_ok + 1;
  consecutive_failures = 0;
  last_ok_ts = some ts;
}

unfoldable pub record_error : PollStats → Exc → ℕ → PollStats
record_error s e ts = record s {
  polls_failed = s.polls_failed + 1;
  consecutive_failures = s.consecutive_failures + 1;
  last_error_ts = some ts;
  last_error_type = some e;
}

pub record ServerStatus : Type 0 where
  pub running : Bool
  pub starts : ℕ
  pub stops : ℕ
  pub last_start_ts : Option ℕ

abbrev pub new_server_status : ServerStatus
new_server_status = record { running = false; starts = 0; stops = 0; last_start_ts = none }

unfoldable pub status_started : ServerStatus → ℕ → ServerStatus
status_started s ts = record s { running = true; starts = s.starts + 1; last_start_ts = some ts }

unfoldable pub status_stopped : ServerStatus → ServerStatus
status_stopped s = record s { stops = if s.running then s.stops + 1 else s.stops; running = false }

pub record RecoveryStats : Type 0 where
  pub restarts : ℕ
  pub last_restart_ts : Option ℕ

abbrev pub new_recovery : RecoveryStats
new_recovery = record { restarts = 0; last_restart_ts = none }

unfoldable pub record_restart : RecoveryStats → ℕ → RecoveryStats
record_restart s ts = record { restarts = s.restarts + 1; last_restart_ts = some ts }

pub record Heartbeat : Type 0 where
  pub last : Option ℕ

abbrev pub new_heartbeat : Heartbeat
new_heartbeat = record { last = none }

unfoldable pub touch : Heartbeat → ℕ → Heartbeat
touch h ts = record { last = some ts }

unfoldable pub heartbeat_age : Heartbeat → ℕ → Age
heartbeat_age h now = age_since h.last now
