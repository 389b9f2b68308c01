-- ===== src/App.antt =====
-- src/nd45_dtsu666/app.py, and `run_poller` of src/nd45_dtsu666/nd45_poller.py: how one bridge
-- joins its parts. A poll round is one turn of `run_poller`'s loop with the callbacks that
-- `_bridge_coros` builds; asyncio runs a callback without interruption, so a round is atomic to
-- the other tasks apart from the poll itself.
pub mod Agreement
pub mod Faults
pub mod Connect
pub mod Chain
pub mod Recovery
use nd45_dtsu666_converter.Canonical.Spread.{SampleStats, record_sample}
use nd45_dtsu666_converter.Server.Encode.{update_datastore}
use nd45_dtsu666_converter.Registers.{TargetSide}
use nd45_dtsu666_converter.Datastore.{Datastore}
use nd45_dtsu666_converter.Canonical.{CanonicalStore, Values, store_update}
use nd45_dtsu666_converter.Stats.{
  Heartbeat, record_error, PollStats, record_ok, touch, heartbeat_age,
}
use nd45_dtsu666_converter.Clock.{inf, Age, age_max}
use nd45_dtsu666_converter.Base.{
  err, ok, ◌++◌, ◌∷◌, [], List, not, false, true, Bool, ◌*◌, ◌+◌, Result, Exc, Floats,
  if◌then◌else◌, leb, ℕ,
}

-- The log lines of `FaultReporter`.
pub data FaultLine : Type 0 where
  polling_failed : FaultLine
  still_failing polling_recovered : ℕ → FaultLine

pub record FaultReporter : Type 0 where
  pub summary_interval : ℕ
  pub failing : Bool
  pub count : ℕ
  pub last_summary : ℕ
  pub fault_lines : List FaultLine

unfoldable pub new_reporter : ℕ → FaultReporter
new_reporter summary_interval = record {
  summary_interval = summary_interval;
  failing = false;
  count = 0;
  last_summary = 0;
  fault_lines = [];
}

unfoldable pub failure : FaultReporter → ℕ → FaultReporter
failure r now =
    let n = r.count + 1 in
    if not r.failing
    then record r {
      failing = true;
      count = n;
      last_summary = now;
      fault_lines = r.fault_lines ++ polling_failed ∷ [];
    }
    else if leb (r.last_summary + r.summary_interval) now
    then record r {
      count = n;
      last_summary = now;
      fault_lines = r.fault_lines ++ still_failing n ∷ [];
    }
    else record r { count = n }

unfoldable pub success : FaultReporter → FaultReporter
success r = record r {
  fault_lines =
      if r.failing then r.fault_lines ++ polling_recovered r.count ∷ [] else r.fault_lines;
  failing = false;
  count = 0;
}

-- What one bridge owns and its poll loop writes. `S` is the served datastore.
pub record Bridge (F S : Type 0) : Type 0 where
  pub store : CanonicalStore F
  pub slave : S
  pub heartbeat : Heartbeat
  pub reporter : FaultReporter
  pub spread : SampleStats F
  pub poll_stats : PollStats

module _ {F S : Type 0} ⦃fl : Floats F⦄ ⦃ds : Datastore S⦄ (sides : List (TargetSide F))
    (ct_ratio : F) where
  -- after `update_datastore`: `store.update` only if it did not raise
  abbrev pub stamp_store :
      Result (Unit {0}) × S
      → CanonicalStore F
      → Values F
      → ℕ
      → Result (Unit {0}) × (S × CanonicalStore F)
  stamp_store (ok u, s) store vs ts = (ok u, (s, store_update store vs ts))
  stamp_store (err e, s) store vs ts = (err e, (s, store))

  -- `build_on_update`
  unfoldable pub base_on_update :
      S → CanonicalStore F → Values F → ℕ → Result (Unit {0}) × (S × CanonicalStore F)
  base_on_update s store vs ts = stamp_store (update_datastore s vs sides ct_ratio) store vs ts

  -- the rest of `_bridge_coros.on_update`, once the write has succeeded; `spread.record` is the
  -- only step that could raise
  abbrev pub count_good : Result (SampleStats F) → Bridge F S → ℕ → Result (Unit {0}) × Bridge F S
  count_good (err e) b now = (err e, b)
  count_good (ok spread') b now =
      (ok tt, record b { spread = spread'; poll_stats = record_ok b.poll_stats now })

  abbrev pub after_write :
      Result (Unit {0}) → Bridge F S → Values F → ℕ → Result (Unit {0}) × Bridge F S
  after_write (err e) b vs now = (err e, b)
  after_write (ok _) b vs now =
      let b' = record b { reporter = success b.reporter } in
      count_good (record_sample b'.spread vs) b' now

  -- `on_update` of one bridge: `ts` is the loop's clock, `now` the monotonic one
  unfoldable pub on_update : Bridge F S → Values F → ℕ → ℕ → Result (Unit {0}) × Bridge F S
  on_update b vs ts now =
      let (r, (s, store')) = base_on_update b.slave b.store vs ts in
      after_write r (record b { heartbeat = touch b.heartbeat now; slave = s; store = store' }) vs
        now

  unfoldable pub on_error : Bridge F S → Exc → ℕ → Bridge F S
  on_error b e now = record b {
    heartbeat = touch b.heartbeat now;
    reporter = failure b.reporter now;
    poll_stats = record_error b.poll_stats e now;
  }

  -- the `except` of `run_poller`
  abbrev pub handle : Result (Unit {0}) × Bridge F S → ℕ → Bridge F S
  handle (ok _, b) now = b
  handle (err e, b) now = on_error b e now

  -- one turn of `run_poller`, given what the poll returned or raised
  unfoldable pub poll_round : Bridge F S → Result (Values F) → ℕ → ℕ → Bridge F S
  poll_round b (err e) ts now = on_error b e now
  poll_round b (ok vs) ts now = handle (on_update b vs ts now) now

-- `SlowestHeartbeat.age`
abbrev pub slowest_from : Age → List Heartbeat → ℕ → Age
slowest_from a [] now = a
slowest_from a (h ∷ hs) now = slowest_from (age_max a (heartbeat_age h now)) hs now

unfoldable pub slowest_age : List Heartbeat → ℕ → Age
slowest_age [] now = inf
slowest_age (h ∷ hs) now = slowest_from (heartbeat_age h now) hs now

-- One turn of `connect_with_retry`: whether the stop event is set at the test, what `connect`
-- answers.
pub record Attempt : Type 0 where
  pub stopped : Bool
  pub connected : Result Bool

abbrev pub min_of : ℕ → ℕ → ℕ
min_of a b = if leb a b then a else b

-- The outcome, and the waits between attempts. A list of attempts that ends while the loop would
-- go on stands for a loop that is still waiting.
pub data Connecting : Type 0 where
  connected_ stopped_ waiting : Connecting
  failed : Exc → Connecting

-- One attempt that follows the wait `current`, with what the loop does from the next one on.
abbrev pub try_once : Bool → Result Bool → ℕ → Connecting × List ℕ → Connecting × List ℕ
try_once true answer current later = (stopped_, [])
try_once false (err e) current later = (failed e, [])
try_once false (ok true) current later = (connected_, [])
try_once false (ok false) current later = (later.0, current ∷ later.1)

unfoldable pub connect_with_retry : ℕ → ℕ → List Attempt → Connecting × List ℕ
connect_with_retry current max_delay [] = (waiting, [])
connect_with_retry current max_delay (a ∷ rest) =
    try_once a.stopped a.connected current
      (connect_with_retry (min_of (current * 2) max_delay) max_delay rest)
