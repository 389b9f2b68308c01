-- ===== src/Metrics/Aliases.antt =====
-- metrics.py: `_render_primary_aliases`, the state of the first bridge under names without label.
use nd45_dtsu666_converter.Metrics.OneBridge.{block_samples, connected_calls, error_calls}
use nd45_dtsu666_converter.Metrics.Readings.{register_part, canonical_part}
use nd45_dtsu666_converter.Server.Activity.{RtuActivity}
use nd45_dtsu666_converter.Canonical.{store_age}
use nd45_dtsu666_converter.Metrics.{
  recent_times, shown, single, sample, gauge, BridgeMetrics, MetricsSource, Call, counter, family,
  most_common, per_window, seconds, whole, flag,
}
use nd45_dtsu666_converter.Stats.{ServerStatus}
use nd45_dtsu666_converter.Clock.{age_since, age_le, secs}
use nd45_dtsu666_converter.Base.Int.{pos}
use nd45_dtsu666_converter.Base.{
  ◌++◌, ◌∷◌, [], List, some, none, Option, length, Floats, if◌then◌else◌, ℕ,
}

module _ {F : Type 0} where
  -- The part before the requests, up to the last error.
  unfoldable pub alias_source : BridgeMetrics F → ℕ → ℕ → List (Call F)
  unfolding store_age
  alias_source b loop_now mono_now =
      let stats = b.poll_stats in
      let age = store_age b.store loop_now in
      single "nd45_data_age_seconds" gauge (seconds age) []
      ++ single "nd45_data_fresh" gauge (flag (age_le age b.spec.max_data_age)) []
      ++ single "nd45_max_data_age_seconds" gauge (seconds (secs (pos b.spec.max_data_age))) []
      ++ single "nd45_poll_interval_seconds" gauge (seconds (secs (pos b.spec.poll_interval))) []
      ++ family "nd45_polls_total" counter
        ∷ sample "nd45_polls_total" (whole stats.polls_ok) (("result", shown "ok") ∷ [])
        ∷ sample "nd45_polls_total" (whole stats.polls_failed) (("result", shown "error") ∷ [])
        ∷ []
      ++ single "nd45_consecutive_poll_failures" gauge (whole stats.consecutive_failures) []
      ++ single "nd45_last_successful_poll_age_seconds" gauge
          (seconds (age_since stats.last_ok_ts mono_now)) []
      ++ single "nd45_last_poll_error_age_seconds" gauge
          (seconds (age_since stats.last_error_ts mono_now)) []

  unfoldable pub alias_server : ServerStatus → ℕ → List (Call F)
  alias_server status mono_now =
      single "dtsu_server_up" gauge (flag status.running) []
      ++ single "dtsu_server_starts_total" counter (whole status.starts) []
      ++ single "dtsu_server_stops_total" counter (whole status.stops) []
      ++ single "dtsu_server_last_start_age_seconds" gauge
          (seconds (age_since status.last_start_ts mono_now)) []

  unfoldable pub alias_requests : RtuActivity → ℕ → List (Call F)
  alias_requests activity mono_now =
      single "dtsu_requests_total" counter (whole activity.total) []
      ++ single "dtsu_request_rate_per_second" gauge
          (per_window (length (recent_times activity mono_now)) activity.rate_window) []
      ++ single "dtsu_last_request_age_seconds" gauge
          (seconds (age_since activity.last_ts mono_now)) []
      ++ family "dtsu_block_reads_total" counter
        ∷ block_samples "dtsu_block_reads_total" [] (most_common activity.blocks)

module _ {F : Type 0} ⦃fl : Floats F⦄ where
  -- after the test of `include_registers`, where the activity is tracked
  unfoldable pub alias_values : MetricsSource F → BridgeMetrics F → ℕ → List (Call F)
  unfolding canonical_part register_part
  alias_values source b mono_now =
      canonical_part "canonical_value" [] b.store.values_
      ++ register_part "dtsu_register_read_age_seconds" "dtsu_register_value" b [] mono_now
          source.targets

  -- after the early return for an activity that is not tracked
  abbrev pub alias_output :
      MetricsSource F → BridgeMetrics F → Option RtuActivity → ℕ → List (Call F)
  alias_output source b none mono_now = []
  alias_output source b (some activity) mono_now =
      alias_requests activity mono_now
      ++ (if source.include_registers then alias_values source b mono_now else [])

  -- `_render_primary_aliases`, for the first bridge
  unfoldable pub render_primary_aliases : MetricsSource F → BridgeMetrics F → ℕ → ℕ → List (Call F)
  render_primary_aliases source b loop_now mono_now =
      connected_calls "nd45_connected" b.connected []
      ++ alias_source b loop_now mono_now
      ++ error_calls "nd45_last_poll_error_info" b.poll_stats.last_error_type []
      ++ alias_server b.server_status mono_now
      ++ alias_output source b b.activity mono_now
