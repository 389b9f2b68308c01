-- ===== src/Metrics/Exposition/Rendered.antt =====
-- metrics.py: the whole rendering.
use nd45_dtsu666_converter.Metrics.Exposition.Measured.{
  register_part-IsClean, canonical_part-IsClean,
}
use nd45_dtsu666_converter.Metrics.Exposition.Families.{
  render_bridge_dtsu-IsClean, IsClean, bridge_identity-IsClean, alias_server-IsClean,
  render_bridge_source-IsClean, alias_requests-IsClean, error_calls-IsClean, ◌and_then◌,
  watchdog_calls-IsClean, process_calls-IsClean, alias_source-IsClean, connected_calls-IsClean,
}
use nd45_dtsu666_converter.Metrics.Endpoint.{
  finished, render, primary_calls, bridges_calls, render_calls,
}
use nd45_dtsu666_converter.Metrics.OneBridge.{render_bridge}
use nd45_dtsu666_converter.Metrics.Aliases.{alias_values, alias_output, render_primary_aliases}
use nd45_dtsu666_converter.Metrics.Exposition.{read_text, perform_calls-IsRead, reading}
use nd45_dtsu666_converter.Metrics.Readings.{render_bridge_values}
use nd45_dtsu666_converter.Server.Activity.{RtuActivity}
use nd45_dtsu666_converter.Metrics.{
  Call, Line, BridgeMetrics, new_out, shown, MetricsSource, Labels,
}
use nd45_dtsu666_converter.Base.{
  ap, FloatLaws, of_nat, if◌then◌else◌, ◌∷◌, [], false, Bool, refl, if◌then◌else◌, ok, List, some,
  none, Option, true, ◌≡◌, String, Floats, string_eq, nat_eq, ℕ,
}

module _ {F : Type 0} ⦃fl : Floats F⦄ (laws : FloatLaws fl)
    (eq_le : (x : F) → fl.eq x (of_nat 0) ≡ true → fl.le x (of_nat 0) ≡ true) where
  render_bridge_values-IsClean :
      (source : MetricsSource F) (b : BridgeMetrics F) (label : Labels) (now : ℕ)
      → IsClean (render_bridge_values source b label now)
  unfolding render_bridge_values
  render_bridge_values-IsClean source b label now =
      canonical_part-IsClean laws eq_le "bridge_canonical_value" label b.store.values_
      and_then register_part-IsClean laws eq_le "bridge_dtsu_register_read_age_seconds"
          "bridge_dtsu_register_value" b label now source.targets

  alias_values-IsClean :
      (source : MetricsSource F) (b : BridgeMetrics F) (now : ℕ)
      → IsClean (alias_values source b now)
  unfolding alias_values
  alias_values-IsClean source b now =
      canonical_part-IsClean laws eq_le "canonical_value" [] b.store.values_
      and_then register_part-IsClean laws eq_le "dtsu_register_read_age_seconds"
          "dtsu_register_value" b [] now source.targets

  if-IsClean :
      (t : Bool) (calls : List (Call F)) → IsClean calls → IsClean (if t then calls else [])
  if-IsClean true calls h = h
  if-IsClean false calls h = record { sampled = tt }

  render_bridge-IsClean :
      (source : MetricsSource F) (b : BridgeMetrics F) (loop_now now : ℕ)
      → IsClean (render_bridge source b loop_now now)
  unfolding render_bridge
  render_bridge-IsClean source b loop_now now =
      let label : Labels = ("bridge", shown b.name) ∷ [] in
      bridge_identity-IsClean b label
      and_then render_bridge_source-IsClean b label loop_now now
      and_then render_bridge_dtsu-IsClean b label now
      and_then if-IsClean source.include_registers _
          (render_bridge_values-IsClean source b label now)

  alias_output-IsClean :
      (source : MetricsSource F) (b : BridgeMetrics F) (activity : Option RtuActivity) (now : ℕ)
      → IsClean (alias_output source b activity now)
  alias_output-IsClean source b none now = record { sampled = tt }
  alias_output-IsClean source b (some activity) now =
      alias_requests-IsClean F activity now
      and_then if-IsClean source.include_registers _ (alias_values-IsClean source b now)

  render_primary_aliases-IsClean :
      (source : MetricsSource F) (b : BridgeMetrics F) (loop_now now : ℕ)
      → IsClean (render_primary_aliases source b loop_now now)
  unfolding render_primary_aliases
  render_primary_aliases-IsClean source b loop_now now =
      connected_calls-IsClean F "nd45_connected" b.connected []
      and_then alias_source-IsClean b loop_now now
      and_then error_calls-IsClean F "nd45_last_poll_error_info" b.poll_stats.last_error_type []
      and_then alias_server-IsClean F b.server_status now
      and_then alias_output-IsClean source b b.activity now

  bridges_calls-IsClean :
      (source : MetricsSource F) (bs : List (BridgeMetrics F)) (loop_now now : ℕ)
      → IsClean (bridges_calls source bs loop_now now)
  unfolding bridges_calls
  bridges_calls-IsClean source [] loop_now now = record { sampled = tt }
  bridges_calls-IsClean source (b ∷ bs) loop_now now =
      render_bridge-IsClean source b loop_now now
      and_then bridges_calls-IsClean source bs loop_now now

  primary_calls-IsClean :
      (source : MetricsSource F) (bs : List (BridgeMetrics F)) (loop_now now : ℕ)
      → IsClean (primary_calls source bs loop_now now)
  unfolding primary_calls
  primary_calls-IsClean source [] loop_now now = record { sampled = tt }
  primary_calls-IsClean source (b ∷ bs) loop_now now =
      render_primary_aliases-IsClean source b loop_now now

  render_calls-IsClean :
      (source : MetricsSource F) (loop_now now : ℕ) → IsClean (render_calls source loop_now now)
  unfolding render_calls
  render_calls-IsClean source loop_now now =
      process_calls-IsClean source now
      and_then watchdog_calls-IsClean F source.watched now
      and_then bridges_calls-IsClean source source.bridges loop_now now
      and_then primary_calls-IsClean source source.bridges loop_now now

  -- `render` always returns, whatever the state of the bridges and however many there are, and in its
  -- text each family has its help line and its type line exactly once, one right after the other, and
  -- a sample comes only after those of its family. It does not say that the samples of a family stand
  -- together. It takes of the floats that a float32 is four bytes and that what equals zero is at most
  -- zero.
  pub render-Declares :
      (source : MetricsSource F) (loop_now now : ℕ)
      → (lines : List (Line F)) × (families : List String) × (render source loop_now now ≡ ok lines)
        × (read_text (reading none []) lines ≡ reading none families)
  unfolding render
  render-Declares source loop_now now =
      let (out, ran, read) =
        perform_calls-IsRead new_out (render_calls source loop_now now)
          (render_calls-IsClean source loop_now now).sampled refl in
      (out.out_lines, out.declared, ap finished ran, read)
