-- ===== src/Metrics/OneBridge.antt =====
-- metrics.py: the state families of one bridge, labelled with its name.
use nd45_dtsu666_converter.Metrics.Readings.{render_bridge_values}
use nd45_dtsu666_converter.Server.Frames.{WireActivity}
use nd45_dtsu666_converter.Server.Activity.{Block, RtuActivity}
use nd45_dtsu666_converter.Canonical.{store_age}
use nd45_dtsu666_converter.Metrics.{
  flag, per_window, transport_name, gauge, Labels, error_type, output_desc, most_common,
  MetricsSource, recent_times, seconds, family, single, BridgeMetrics, counter, BridgeConf, shown,
  sample, Call, whole, digits,
}
use nd45_dtsu666_converter.Stats.{heartbeat_age, Heartbeat, ServerStatus}
use nd45_dtsu666_converter.Clock.{secs, age_since, age_le}
use nd45_dtsu666_converter.Base.Int.{pos}
use nd45_dtsu666_converter.Base.{
  ◌++◌, ◌∷◌, [], List, some, none, Option, Bool, String, Exc, Dict, length, Floats, string_eq,
  nat_eq, if◌then◌else◌, ℕ,
}

module _ {F : Type 0} where
  -- `if connected is not None`
  abbrev pub connected_calls : String → Option Bool → Labels → List (Call F)
  connected_calls name none label = []
  connected_calls name (some up) label = single name gauge (flag up) label

  -- `if stats.last_error_type is not None`
  abbrev pub error_calls : String → Option Exc → Labels → List (Call F)
  error_calls name none label = []
  error_calls name (some e) label =
      single name gauge (whole 1) (label ++ ("type", error_type e) ∷ [])

  -- `if bridge.heartbeat is not None`
  abbrev pub heartbeat_calls : BridgeConf F → Option Heartbeat → Labels → ℕ → List (Call F)
  heartbeat_calls spec none label mono_now = []
  heartbeat_calls spec (some h) label mono_now =
      single "bridge_heartbeat_age_seconds" gauge (seconds (heartbeat_age h mono_now)) label
      ++ single "bridge_stall_timeout_seconds" gauge (seconds (secs (pos spec.stall_timeout))) label

  -- `_render_bridge_source`, the part between the link and the last error
  unfoldable pub source_state : BridgeMetrics F → Labels → ℕ → ℕ → List (Call F)
  unfolding store_age
  source_state b label loop_now mono_now =
      let stats = b.poll_stats in
      let age = store_age b.store loop_now in
      single "bridge_data_age_seconds" gauge (seconds age) label
      ++ single "bridge_data_fresh" gauge (flag (age_le age b.spec.max_data_age)) label
      ++ single "bridge_max_data_age_seconds" gauge (seconds (secs (pos b.spec.max_data_age))) label
      ++ single "bridge_poll_interval_seconds" gauge (seconds (secs (pos b.spec.poll_interval)))
          label
      ++ family "bridge_polls_total" counter
        ∷ sample "bridge_polls_total" (whole stats.polls_ok) (label ++ ("result", shown "ok") ∷ [])
        ∷ sample "bridge_polls_total" (whole stats.polls_failed)
            (label ++ ("result", shown "error") ∷ [])
        ∷ []
      ++ single "bridge_consecutive_poll_failures" gauge (whole stats.consecutive_failures) label
      ++ single "bridge_last_successful_poll_age_seconds" gauge
          (seconds (age_since stats.last_ok_ts mono_now)) label
      ++ single "bridge_last_poll_error_age_seconds" gauge
          (seconds (age_since stats.last_error_ts mono_now)) label

  -- the part after the last error
  unfoldable pub recovery_state : BridgeMetrics F → Labels → ℕ → List (Call F)
  recovery_state b label mono_now =
      single "bridge_poller_restarts_total" counter (whole b.recovery.restarts) label
      ++ single "bridge_last_poller_restart_age_seconds" gauge
          (seconds (age_since b.recovery.last_restart_ts mono_now)) label

  unfoldable pub render_bridge_source : BridgeMetrics F → Labels → ℕ → ℕ → List (Call F)
  render_bridge_source b label loop_now mono_now =
      connected_calls "bridge_source_connected" b.connected label
      ++ source_state b label loop_now mono_now
      ++ error_calls "bridge_last_poll_error_info" b.poll_stats.last_error_type label
      ++ recovery_state b label mono_now
      ++ heartbeat_calls b.spec b.heartbeat label mono_now

  -- `_render_bridge_dtsu`, before the requests
  unfoldable pub server_state : ServerStatus → Labels → ℕ → List (Call F)
  server_state status label mono_now =
      single "bridge_dtsu_server_up" gauge (flag status.running) label
      ++ single "bridge_dtsu_server_starts_total" counter (whole status.starts) label
      ++ single "bridge_dtsu_server_stops_total" counter (whole status.stops) label
      ++ single "bridge_dtsu_server_last_start_age_seconds" gauge
          (seconds (age_since status.last_start_ts mono_now)) label

  -- the loop over `summary["blocks"]`
  abbrev pub block_samples : String → Labels → Dict Block ℕ → List (Call F)
  block_samples name label [] = []
  block_samples name label ((k, hits) ∷ rest) =
      sample name (whole hits)
        (label ++ ("fc", digits k.fc) ∷ ("addr", digits k.address) ∷ ("count", digits k.count) ∷ [])
      ∷ block_samples name label rest

  -- the requests, of an activity that is tracked
  unfoldable pub request_state : RtuActivity → Labels → ℕ → List (Call F)
  request_state activity label mono_now =
      single "bridge_dtsu_requests_total" counter (whole activity.total) label
      ++ single "bridge_dtsu_request_rate_per_second" gauge
          (per_window (length (recent_times activity mono_now)) activity.rate_window) label
      ++ single "bridge_dtsu_last_request_age_seconds" gauge
          (seconds (age_since activity.last_ts mono_now)) label
      ++ family "bridge_dtsu_block_reads_total" counter
        ∷ block_samples "bridge_dtsu_block_reads_total" label (most_common activity.blocks)

  -- the loop over `wire["slave_ids"]`
  abbrev pub frame_samples : Labels → Dict ℕ ℕ → List (Call F)
  frame_samples label [] = []
  frame_samples label ((slave_id, hits) ∷ rest) =
      sample "bridge_dtsu_bus_frames_total" (whole hits)
        (label ++ ("slave_id", digits slave_id) ∷ [])
      ∷ frame_samples label rest

  -- the bus, of a port that is traced
  abbrev pub wire_state : Option WireActivity → Labels → List (Call F)
  wire_state none label = []
  wire_state (some wire) label =
      single "bridge_dtsu_bus_bytes_total" counter (whole wire.bytes_seen) label
      ++ family "bridge_dtsu_bus_frames_total" counter
        ∷ frame_samples label (most_common wire.frames)

  -- after the early return for an activity that is not tracked
  abbrev pub output_state : Option RtuActivity → Option WireActivity → Labels → ℕ → List (Call F)
  output_state none wire label mono_now = []
  output_state (some activity) wire label mono_now =
      request_state activity label mono_now ++ wire_state wire label

  unfoldable pub render_bridge_dtsu : BridgeMetrics F → Labels → ℕ → List (Call F)
  render_bridge_dtsu b label mono_now =
      server_state b.server_status label mono_now ++ output_state b.activity b.wire label mono_now

  -- the first family of `_render_bridge`
  unfoldable pub bridge_identity : BridgeMetrics F → Labels → List (Call F)
  bridge_identity b label = single "bridge_info" gauge (whole 1) (
      label
      ++ ("source_type", shown b.spec.source_type)
        ∷ ("register_map", shown b.spec.register_map)
        ∷ ("transport", shown (transport_name b.spec.transport))
        ∷ ("slave_id", digits b.spec.slave_id)
        ∷ output_desc b.spec.transport b.spec.serial_port b.spec.tcp_bind)

module _ {F : Type 0} ⦃fl : Floats F⦄ where
  -- `_render_bridge`
  unfoldable pub render_bridge : MetricsSource F → BridgeMetrics F → ℕ → ℕ → List (Call F)
  unfolding render_bridge_source render_bridge_dtsu render_bridge_values
  render_bridge source b loop_now mono_now =
      let label = ("bridge", shown b.name) ∷ [] in
      bridge_identity b label
      ++ render_bridge_source b label loop_now mono_now
      ++ render_bridge_dtsu b label mono_now
      ++ (if source.include_registers then render_bridge_values source b label mono_now else [])
