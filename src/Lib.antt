-- ===== src/Lib.antt =====
-- nd45_dtsu666_converter: a service that reads power meters over Modbus and serves their values as a
-- DTSU666 meter to a storage controller. This library models its decision and data path.
--
-- A bridge is one source and one output. `run_poller` (src/nd45_dtsu666/nd45_poller.py) polls a source:
-- blocks of registers are read, decoded to a sample in SI units (src/nd45_dtsu666/codec.py), completed
-- by derive steps (src/nd45_dtsu666/canonical.py), and passed to a callback (src/nd45_dtsu666/app.py)
-- that encodes the sample into the served registers (src/nd45_dtsu666/dtsu_server.py) and then stamps
-- the store. Beside it, `supervise_server` starts the output server while the store is fresh and stops
-- it when it is stale, so that a dark source silences the output. The register map
-- (src/nd45_dtsu666/config.py) is checked when it is loaded.
--
-- Files and what they model:
--   Base, Base/*: Boolean tests, lists, integers, exceptions as values, dicts, and the operations on
--     Python floats as an argument (`Floats`, with the laws that theorems use in `FloatLaws`)
--   Codec, Codec/*: src/nd45_dtsu666/codec.py, function by function
--   Registers, Registers/Map, Registers/Overlap: the register map of src/nd45_dtsu666/config.py and its
--     validators, `SourcePoint._check_shape` as `check_shape` and so on
--   Bridges, Bridges/Outputs: the checks of `AppConfig` between the bridges of a configuration
--   Clock, Stats: clock readings and ages; `PollStats`, `ServerStatus`, `RecoveryStats` of
--     src/nd45_dtsu666/metrics.py and `Heartbeat` of src/nd45_dtsu666/watchdog.py
--   Canonical, Canonical/*: src/nd45_dtsu666/canonical.py: the store, the derive steps, `SampleStats`
--   Pollers, Pollers/*: the three sources: nd45_poller.py, huawei_poller.py, etango_poller.py
--   Datastore: the interface of the register image that pymodbus serves
--   Server/*: src/nd45_dtsu666/dtsu_server.py: Encode (`encode_target_point`, `update_datastore`),
--     Identity (`write_static_registers`, `write_sigen_identity`), Context (`build_context`), Frames (`rtu_crc`,
--     `scan_rtu_requests`, `WireActivity`), Activity (`RtuActivity`), Supervisor (`_server_action`,
--     `supervise_server`)
--   Hub, Hub/*: src/nd45_dtsu666/hub_client.py: `BlockCache`, `blocks_for_source`, `HubClient`, and
--     `HubConnection` as a step relation
--   Metrics, Metrics/*: the endpoint of src/nd45_dtsu666/metrics.py: `_Out` and the calls of `render` in
--     their order, `parse_request`, `route`
--   App, App/*: src/nd45_dtsu666/app.py: `build_on_update`, the callbacks of `_bridge_coros`,
--     `FaultReporter`, `connect_with_retry`, `supervise_poller`, `SlowestHeartbeat`; `run_poller`; and
--     theorems that join the parts
--   Watchdog, Watchdog/*: `watchdog_loop` of src/nd45_dtsu666/watchdog.py, fed by `SlowestHeartbeat`
--   StaticDebug, StaticDebug/*: `expand_static_values` of src/nd45_dtsu666/static_debug.py
--   Settings, Settings/*: the settings of a process in src/nd45_dtsu666/config.py, with the checks of a
--     configuration in their order (`load_config`), and the choice of a bridge by its name
--   Tests/*: the theorems at concrete inputs
--
-- Conventions. State is a record that an operation takes and returns. A raise is `err` with its class,
-- beside the state where the code keeps what it wrote before the raise. A method of a class is a
-- function on its record. A coroutine is a function of what it observes: a Modbus client is a function
-- from requests to answers, the loop of the supervisor takes the list of its rounds, and the loop of the
-- poller the list of its turns; the connection to modbus-hub is a step relation, since its task and its
-- callers interleave. Every loop is structural recursion on a list, so there is no fuel and
-- every function is total. Times are natural numbers of a tick. Register addresses and counts are
-- natural numbers; words and bytes have their bounds written out where they matter.
--
-- Arguments of the model: Python's floats with `math` and `struct`, the pymodbus datastore and client,
-- the gRPC stream of modbus-hub. The laws of the datastore are those of blocks that reach every
-- register in use; for the identity registers they are stated within a block of a given size.
-- Not modelled: the limits that pydantic puts on single fields and its check of the values for a bench
-- test, a cancellation that arrives while the supervisor waits for a shutdown, the text of a metrics
-- line, the HTTP server, the monitor and the other tools, the command line and the scripts; they are display, input and output, or they are left for an extension of the library. Log lines are
-- modelled only where the code decides which of them to write.
pub mod Base
pub mod Codec
pub mod Registers
pub mod Bridges
pub mod Clock
pub mod Canonical
pub mod Pollers
pub mod Datastore
pub mod Stats
pub mod Server
pub mod Hub
pub mod Metrics
pub mod App
pub mod Watchdog
pub mod StaticDebug
pub mod Settings
mod Tests
