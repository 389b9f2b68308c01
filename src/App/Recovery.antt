-- ===== src/App/Recovery.antt =====
-- app.py: `supervise_poller`, which rebuilds the client of a poll loop that died or hangs. A round is
-- one turn of its loop that the stop event did not end; what it observes is its input.
use nd45_dtsu666_converter.Clock.{age_le}
use nd45_dtsu666_converter.Base.{
  err, ok, arith, ◌++◌, ◌∷◌, [], List, ◌||◌, not, false, true, Bool, ◌≡◌, ◌+◌, suc, Result,
  if◌then◌else◌, ℕ,
}
use nd45_dtsu666_converter.Stats.{Heartbeat, touch, heartbeat_age, RecoveryStats, record_restart}

pub data PollerCall : Type 0 where
  start_poller cancel_poller close_client replace_client : PollerCall

-- Whether the poll task is done, the heartbeat and the clock at the check, the clocks of the
-- recovery and of the new start, and how the connection ends.
pub record PollerRound : Type 0 where
  pub task_done : Bool
  pub beat : Heartbeat
  pub checked_at : ℕ
  pub recorded_at : ℕ
  pub restarted_at : ℕ
  pub connection : Result Bool

pub record PollerSupervisor : Type 0 where
  pub heartbeat : Heartbeat
  pub recovery : RecoveryStats
  pub calls : List PollerCall

-- `start()`
abbrev pub start_loop : PollerSupervisor → ℕ → PollerSupervisor
start_loop s now = record s {
  heartbeat = touch s.heartbeat now;
  calls = s.calls ++ start_poller ∷ [];
}

-- `task.done()`, or `age > stall_timeout`
abbrev pub must_restart : ℕ → PollerRound → Bool
must_restart stall_timeout r =
    r.task_done || not (age_le (heartbeat_age r.beat r.checked_at) stall_timeout)

-- the steps before the connection: a hung task is cancelled, a dead one is not
abbrev pub rebuild : PollerRound → PollerSupervisor → PollerSupervisor
rebuild r s = record {
  heartbeat = r.beat;
  recovery = record_restart s.recovery r.recorded_at;
  calls =
      s.calls
      ++ (if r.task_done
          then close_client ∷ replace_client ∷ []
          else cancel_poller ∷ close_client ∷ replace_client ∷ []);
}

-- the connection, and the new task if it did not raise
abbrev pub reconnect : Result Bool → PollerSupervisor → ℕ → Result (Unit {0}) × PollerSupervisor
reconnect (err e) s now = (err e, s)
reconnect (ok _) s now = (ok tt, start_loop s now)

abbrev pub restart_if : Bool → PollerRound → PollerSupervisor → Result (Unit {0}) × PollerSupervisor
restart_if false r s = (ok tt, record s { heartbeat = r.beat })
restart_if true r s = reconnect r.connection (rebuild r s) r.restarted_at

unfoldable pub supervise_poller_round :
    ℕ → PollerRound → PollerSupervisor → Result (Unit {0}) × PollerSupervisor
supervise_poller_round stall_timeout r s = restart_if (must_restart stall_timeout r) r s

-- An exception ends the loop.
abbrev pub go_on :
    Result (Unit {0}) × PollerSupervisor
    → (PollerSupervisor → Result (Unit {0}) × PollerSupervisor)
    → Result (Unit {0}) × PollerSupervisor
go_on (err e, s) next = (err e, s)
go_on (ok _, s) next = next s

-- The loop from some state on: how it ends, and the state.
unfoldable pub poller_rounds :
    ℕ → List PollerRound → PollerSupervisor → Result (Unit {0}) × PollerSupervisor
poller_rounds stall_timeout [] s = (ok tt, s)
poller_rounds stall_timeout (r ∷ rs) s =
    go_on (supervise_poller_round stall_timeout r s) (poller_rounds stall_timeout rs)

-- `supervise_poller` without the `finally`, which cancels the last task.
unfoldable pub supervise_poller :
    ℕ → ℕ → List PollerRound → PollerSupervisor → Result (Unit {0}) × PollerSupervisor
supervise_poller stall_timeout now rounds s = poller_rounds stall_timeout rounds (start_loop s now)

abbrev pub is_start_call : PollerCall → Bool
is_start_call start_poller = true
is_start_call _ = false

abbrev pub is_close_call : PollerCall → Bool
is_close_call close_client = true
is_close_call _ = false

abbrev pub is_replace_call : PollerCall → Bool
is_replace_call replace_client = true
is_replace_call _ = false

unfoldable pub count_calls : (PollerCall → Bool) → List PollerCall → ℕ
count_calls p [] = 0
count_calls p (c ∷ cs) = let rest = count_calls p cs in if p c then suc rest else rest

count_calls-append :
    (p : PollerCall → Bool) (xs ys : List PollerCall)
    → count_calls p (xs ++ ys) ≡ count_calls p xs + count_calls p ys
unfolding count_calls
count_calls-append p [] ys = omega arith
count_calls-append p (x ∷ xs) ys = ground (arith, count_calls-append p xs ys)

abbrev pub count_in : (PollerCall → Bool) → PollerSupervisor → ℕ
count_in p s = count_calls p s.calls

-- Every recovery closed one client and made one; `n` loops were started beyond the recoveries.
abbrev pub Balanced : ℕ → PollerSupervisor → Type 0
Balanced n s =
    (count_in is_close_call s ≡ s.recovery.restarts)
    × (count_in is_replace_call s ≡ s.recovery.restarts)
    × (count_in is_start_call s ≡ s.recovery.restarts + n)

-- How a run ends: with one loop more than recoveries, or with as many if a connection raised.
abbrev pub Recovered : Result (Unit {0}) × PollerSupervisor → Type 0
Recovered (ok _, s) = Balanced 1 s
Recovered (err _, s) = Balanced 0 s

start_loop-Balanced :
    (s : PollerSupervisor) (now : ℕ) → Balanced 0 s → Balanced 1 (start_loop s now)
unfolding count_calls
start_loop-Balanced s now h = ground (
  arith,
  count_calls-append is_start_call s.calls (start_poller ∷ []),
  count_calls-append is_close_call s.calls (start_poller ∷ []),
  count_calls-append is_replace_call s.calls (start_poller ∷ []),
)

rebuild-Balanced :
    (r : PollerRound) (s : PollerSupervisor) → Balanced 1 s → Balanced 0 (rebuild r s)
unfolding count_calls record_restart
rebuild-Balanced r s h =
    let short = close_client ∷ replace_client ∷ [] in
    let long = cancel_poller ∷ short in
    ground (
      arith,
      count_calls-append is_start_call s.calls short,
      count_calls-append is_close_call s.calls short,
      count_calls-append is_replace_call s.calls short,
      count_calls-append is_start_call s.calls long,
      count_calls-append is_close_call s.calls long,
      count_calls-append is_replace_call s.calls long,
    )

reconnect-Recovered :
    (c : Result Bool) (s : PollerSupervisor) (now : ℕ)
    → Balanced 0 s
    → Recovered (reconnect c s now)
reconnect-Recovered (err e) s now h = h
reconnect-Recovered (ok b) s now h = start_loop-Balanced s now h

restart_if-Recovered :
    (b : Bool) (r : PollerRound) (s : PollerSupervisor)
    → Balanced 1 s
    → Recovered (restart_if b r s)
restart_if-Recovered false r s h = h
restart_if-Recovered true r s h =
    reconnect-Recovered r.connection (rebuild r s) r.restarted_at (rebuild-Balanced r s h)

go_on-Recovered :
    (p : Result (Unit {0}) × PollerSupervisor)
    (next : PollerSupervisor → Result (Unit {0}) × PollerSupervisor)
    → Recovered p
    → ((s : PollerSupervisor) → Balanced 1 s → Recovered (next s))
    → Recovered (go_on p next)
go_on-Recovered (err e, s) next h f = h
go_on-Recovered (ok _, s) next h f = f s h

poller_rounds-Recovered :
    (stall_timeout : ℕ) (rounds : List PollerRound) (s : PollerSupervisor)
    → Balanced 1 s
    → Recovered (poller_rounds stall_timeout rounds s)
unfolding poller_rounds supervise_poller_round
poller_rounds-Recovered stall_timeout [] s h = h
poller_rounds-Recovered stall_timeout (r ∷ rs) s h =
    go_on-Recovered (supervise_poller_round stall_timeout r s) (poller_rounds stall_timeout rs)
      (restart_if-Recovered (must_restart stall_timeout r) r s h)
      (poller_rounds-Recovered stall_timeout rs)

-- Started from a balanced state, a supervised poll loop closes one client and makes one for each
-- recovery that it counts, and starts one loop more than it has recoveries; only a connection that
-- raises ends it, and then no loop is started for the last recovery.
pub supervise_poller-Recovered :
    (stall_timeout now : ℕ) (rounds : List PollerRound) (s : PollerSupervisor)
    → Balanced 0 s
    → Recovered (supervise_poller stall_timeout now rounds s)
unfolding supervise_poller
supervise_poller-Recovered stall_timeout now rounds s h =
    poller_rounds-Recovered stall_timeout rounds (start_loop s now) (start_loop-Balanced s now h)
