-- ===== src/Tests/Supervising.antt =====
-- The supervisor, the fault reporter and the connection loop over concrete runs.
use nd45_dtsu666_converter.App.Recovery.{
  supervise_poller-Recovered, Recovered, PollerRound, PollerSupervisor, Balanced, supervise_poller,
  count_calls,
}
use nd45_dtsu666_converter.Bridges.Outputs.{Distinct, check_output_transports_iff, outputs}
use nd45_dtsu666_converter.Server.Identity.{tcp, rtu}
use nd45_dtsu666_converter.Bridges.{check_output_transports, BridgeSpec}
use nd45_dtsu666_converter.Stats.{new_heartbeat, new_recovery}
use nd45_dtsu666_converter.App.Faults.{
  failed_at, outages, succeeded, Outcome, report_all_transitions, is_failing, trailing, report_all,
  recoveries,
}
use nd45_dtsu666_converter.App.Connect.{BacksOff, waits_back_off}
use nd45_dtsu666_converter.Server.Supervisor.Restarts.{
  supervise_round_fresh, starts-Spaced, start_times, Spaced,
}
use nd45_dtsu666_converter.Server.Supervisor.Failsafe.{
  serves, shutdowns, supervise_server_closed, supervise_round_stale,
}
use nd45_dtsu666_converter.Server.Supervisor.{
  Round, supervise_round, supervise_server, new_supervisor, supervise, Supervisor, SupervisorConf,
}
use nd45_dtsu666_converter.Canonical.{should_serve}
use nd45_dtsu666_converter.App.{Attempt, connect_with_retry, new_reporter}
use nd45_dtsu666_converter.Clock.{secs}
use nd45_dtsu666_converter.Base.Int.{pos}
use nd45_dtsu666_converter.Base.{
  some, ◌↔◌, ok, arith, ◌∷◌, [], List, none, false, true, refl, ◌≡◌, ◌+◌, if◌then◌else◌, ℕ,
}

abbrev some_conf : SupervisorConf
some_conf = record { max_age = 15; min_restart_interval = 5; dead_start_grace = 10 }

abbrev fresh_at : ℕ → Round
fresh_at t = record {
  now = t;
  age = secs (pos 1);
  task_done = false;
  never_opened = false;
  factory = ok tt;
}

abbrev stale_at : ℕ → Round
stale_at t = record {
  now = t;
  age = secs (pos 16);
  task_done = false;
  never_opened = false;
  factory = ok tt;
}

abbrev some_rounds : List Round
some_rounds = fresh_at 100 ∷ stale_at 101 ∷ fresh_at 102 ∷ fresh_at 106 ∷ []

supervise_server_closed_example :
    let s = supervise_server some_conf some_rounds in
    (s.up ≡ false)
    × (s.status.running ≡ false)
    × (s.status.starts ≡ s.status.stops)
    × (serves s ≡ shutdowns s)
supervise_server_closed_example = supervise_server_closed some_conf some_rounds

starts-Spaced_example : Spaced 5 none (start_times some_conf some_rounds new_supervisor)
starts-Spaced_example = starts-Spaced some_conf some_rounds

supervise_round_stale_example :
    (s' : Supervisor) × (supervise_round some_conf
        (stale_at 101)
        (supervise some_conf (fresh_at 100 ∷ []) new_supervisor)
      ≡ ok s')
    × (s'.up ≡ false)
unfolding should_serve
supervise_round_stale_example =
    supervise_round_stale some_conf (stale_at 101)
      (supervise some_conf (fresh_at 100 ∷ []) new_supervisor) refl

supervise_round_fresh_example :
    (s' : Supervisor) × (supervise_round some_conf (fresh_at 100) new_supervisor ≡ ok s')
    × (s'.up ≡ true)
unfolding should_serve
supervise_round_fresh_example =
    supervise_round_fresh some_conf (fresh_at 100) new_supervisor refl refl (λ l e. absurd (cc))

abbrev some_outcomes : List Outcome
some_outcomes = failed_at 1 ∷ failed_at 62 ∷ succeeded ∷ failed_at 70 ∷ []

report_all_transitions_example :
    let r = report_all (new_reporter 60) some_outcomes in
    (r.count ≡ trailing 0 some_outcomes)
    × (r.failing ≡ is_failing (trailing 0 some_outcomes))
    × (outages r ≡ recoveries r + (if r.failing then 1 else 0))
report_all_transitions_example = report_all_transitions 60 some_outcomes

abbrev some_attempts : List Attempt
some_attempts =
    record { stopped = false; connected = ok false }
    ∷ record { stopped = false; connected = ok false }
    ∷ record { stopped = false; connected = ok true }
    ∷ []

waits_back_off_example : BacksOff 1 30 (connect_with_retry 1 30 some_attempts).1
waits_back_off_example = waits_back_off 1 30 some_attempts (omega arith)

abbrev some_loop : PollerSupervisor
some_loop = record { heartbeat = new_heartbeat; recovery = new_recovery; calls = [] }

abbrev hung : PollerRound
hung = record {
  task_done = false;
  beat = record { last = some 5 };
  checked_at = 40;
  recorded_at = 41;
  restarted_at = 43;
  connection = ok true;
}

some_loop-Balanced : Balanced 0 some_loop
unfolding count_calls
some_loop-Balanced = (refl, refl, refl)

supervise_poller-Recovered_example : Recovered (supervise_poller 30 1 (hung ∷ []) some_loop)
supervise_poller-Recovered_example =
    supervise_poller-Recovered 30 1 (hung ∷ []) some_loop some_loop-Balanced

abbrev two_bridges : List BridgeSpec
two_bridges =
    record {
      name = "nd45";
      transport = rtu;
      serial_port = some "/dev/ttyUSB0";
      tcp_bind = none;
      metrics_port = some 9100;
      poll_interval = 300;
      max_data_age = 3000;
    }
    ∷ record {
      name = "huawei";
      transport = tcp;
      serial_port = none;
      tcp_bind = some ("0.0.0.0", 502);
      metrics_port = some 9101;
      poll_interval = 5000;
      max_data_age = 15000;
    }
    ∷ []

check_output_transports_example :
    (check_output_transports two_bridges ≡ ok tt) ↔ Distinct (outputs two_bridges)
check_output_transports_example = check_output_transports_iff two_bridges
