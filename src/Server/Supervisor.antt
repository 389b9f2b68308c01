-- ===== src/Server/Supervisor.antt =====
-- dtsu_server.py: `_server_action` and `supervise_server`, the fail-safe of one bridge. The loop is
-- a step over the rounds; what a round observes (the clock, the age of the store, whether the
-- server task has ended, whether the transport never opened, whether the factory raises) is its
-- input. `_shutdown_quietly` and `_cancel_and_await` swallow the exceptions of what they call, so they
-- are effects that always return; a cancellation that arrives while they wait is not modelled. The optional `status` is present, as `build_bridge` passes it.
pub mod Failsafe
pub mod Restarts
use nd45_dtsu666_converter.Canonical.{should_serve}
use nd45_dtsu666_converter.Stats.{new_server_status, ServerStatus, status_started, status_stopped}
use nd45_dtsu666_converter.Base.{
  err, ok, ◌++◌, ◌∷◌, [], List, some, none, Option, ◌&&◌, not, false, true, Bool, ◌+◌, Result, ◌>>◌,
  ◌>>=◌, if◌then◌else◌, leb, ℕ,
}
use nd45_dtsu666_converter.Clock.{Age}

pub data Action : Type 0 where
  start wait stop no_action : Action

unfoldable pub server_action : Bool → Bool → ℕ → Option ℕ → ℕ → Action
server_action fresh running now last_start min_restart_interval =
    if fresh && not running
    then elim last_start [
      | none ↦ start
      | some ls ↦ if leb (ls + min_restart_interval) now then start else wait
    ]
    else if not fresh && running
    then stop
    else no_action

-- The settings: `HealthGate.max_age`, `min_restart_interval`, `dead_start_grace`.
pub record SupervisorConf : Type 0 where
  pub max_age : ℕ
  pub min_restart_interval : ℕ
  pub dead_start_grace : ℕ

-- What one round observes; `task_done` and `never_opened` speak of the server that runs, if any.
pub record Round : Type 0 where
  pub now : ℕ
  pub age : Age
  pub task_done : Bool
  pub never_opened : Bool
  pub factory : Result (Unit {0})

-- Calls on a server object.
pub data Effect : Type 0 where
  serve shutdown cancel_task : Effect

-- The loop's variables: whether `server` and `serve_task` are set, the last start, the reported
-- status, and the effects so far.
pub record Supervisor : Type 0 where
  pub up : Bool
  pub last_start : Option ℕ
  pub status : ServerStatus
  pub effects : List Effect

abbrev pub new_supervisor : Supervisor
new_supervisor = record { up = false; last_start = none; status = new_server_status; effects = [] }

-- `server, serve_task = None, None; _mark_down()`, after the given calls
abbrev pub take_down : Supervisor → List Effect → Supervisor
take_down s calls = record s {
  up = false;
  status = status_stopped s.status;
  effects = s.effects ++ calls;
}

-- `last_start is not None and t - last_start >= grace`
abbrev pub elapsed : Option ℕ → ℕ → ℕ → Bool
elapsed none now grace = false
elapsed (some ls) now grace = leb (ls + grace) now

-- The first half of a round: a server whose task ended, or whose transport never opened.
unfoldable pub reap : SupervisorConf → Round → Supervisor → Supervisor
reap cfg r s =
    if s.up && r.task_done
    then take_down s (shutdown ∷ [])
    else if s.up && r.never_opened && elapsed s.last_start r.now cfg.dead_start_grace
    then take_down s (shutdown ∷ cancel_task ∷ [])
    else s

-- `server = factory(); …; last_start = t; status.started(t)`
abbrev pub take_up : Round → Supervisor → Supervisor
take_up r s = record s {
  up = true;
  last_start = some r.now;
  status = status_started s.status r.now;
  effects = s.effects ++ serve ∷ [];
}

-- The second half: what the action does. A raising factory ends the loop.
abbrev pub perform : Action → Round → Supervisor → Result Supervisor
perform start r s = r.factory >> ok (take_up r s)
perform stop r s = ok (take_down s (shutdown ∷ cancel_task ∷ []))
perform wait r s = ok s
perform no_action r s = ok s

abbrev pub choose : SupervisorConf → Round → Supervisor → Action
choose cfg r s =
    server_action (should_serve cfg.max_age r.age) s.up r.now s.last_start cfg.min_restart_interval

-- one round of the `while` loop
unfoldable pub supervise_round : SupervisorConf → Round → Supervisor → Result Supervisor
unfolding reap
supervise_round cfg r s = let s' = reap cfg r s in perform (choose cfg r s') r s'

-- `finally:` close what runs, and report down
unfoldable pub finish : Supervisor → Supervisor
finish s = if s.up then take_down s (shutdown ∷ cancel_task ∷ []) else take_down s []

-- The rounds until the stop event or an exception, without the `finally`: the last state.
unfoldable pub supervise : SupervisorConf → List Round → Supervisor → Supervisor
supervise cfg [] s = s
supervise cfg (r ∷ rs) s = elim (supervise_round cfg r s) [
  | err e ↦ reap cfg r s
  | ok s' ↦ supervise cfg rs s'
]

unfoldable pub supervise_server : SupervisorConf → List Round → Supervisor
supervise_server cfg rounds = finish (supervise cfg rounds new_supervisor)
