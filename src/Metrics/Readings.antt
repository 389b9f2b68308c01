-- ===== src/Metrics/Readings.antt =====
-- metrics.py: `_render_bridge_values`, the canonical values and the encoded registers of a bridge.
use nd45_dtsu666_converter.Registers.Map.{targets}
use nd45_dtsu666_converter.Server.Encode.{encode_target_point}
use nd45_dtsu666_converter.Server.Activity.{RtuActivity, last_seen}
use nd45_dtsu666_converter.Registers.{TargetPoint, fc4, fc3, TargetSide, FunctionCode}
use nd45_dtsu666_converter.Codec.{registers_to_float}
use nd45_dtsu666_converter.Canonical.{Values}
use nd45_dtsu666_converter.Metrics.{
  measured, sample, MetricsSource, family, gauge, seconds, digits, Call, shown, sorted, fails,
  BridgeMetrics, Labels,
}
use nd45_dtsu666_converter.Clock.{age_since}
use Prim.Native.String.{compare}
use text.Mathlib.Text.{is_lt}
use nd45_dtsu666_converter.Base.{
  value_error, err, ok, ◌++◌, ◌∷◌, [], List, some, none, Option, not, String, Result, lookup, Dict,
  Floats, string_eq, nat_eq, leb, ℕ,
}

-- `str(side.function_code)`, as a number
abbrev pub code_number : FunctionCode → ℕ
code_number fc3 = 3
code_number fc4 = 4

module _ {F : Type 0} where
  -- `sorted(values)`, with the vs
  unfoldable pub sorted_values : Values F → Values F
  unfolding sorted
  sorted_values vs = sorted (λ a b. not (is_lt (compare b.0 a.0))) vs

  -- the loop over the names
  abbrev pub value_samples : String → Labels → Values F → List (Call F)
  value_samples name label [] = []
  value_samples name label ((point, value) ∷ rest) =
      sample name (measured value) (label ++ ("point", shown point) ∷ [])
      ∷ value_samples name label rest

  -- `sorted(side.points.items(), key=lambda kv: kv[1].addr)`
  unfoldable pub sorted_points : Dict String (TargetPoint F) → Dict String (TargetPoint F)
  unfolding sorted
  sorted_points points = sorted (λ a b. leb a.1.addr b.1.addr) points

  abbrev pub point_labels : Labels → String → TargetSide F → String → TargetPoint F → Labels
  point_labels label map_name side point_name pt =
      label
      ++ ("map", shown map_name)
        ∷ ("point", shown point_name)
        ∷ ("fc", digits (code_number side.function_code))
        ∷ ("addr", digits pt.addr)
        ∷ []

  -- `if bridge.activity is not None`
  abbrev pub read_age_calls :
      String → Option RtuActivity → TargetSide F → TargetPoint F → Labels → ℕ → List (Call F)
  read_age_calls name none side pt labels mono_now = []
  read_age_calls name (some activity) side pt labels mono_now =
      sample name
        (seconds (age_since (last_seen activity (code_number side.function_code) pt.addr) mono_now))
        labels
      ∷ []

module _ {F : Type 0} ⦃fl : Floats F⦄ where
  -- what is reported of an encoded value
  abbrev pub reported : String → Labels → Result F → List (Call F)
  reported name labels (ok raw) = sample name (measured raw) labels ∷ []
  reported name labels (err e) = fails e ∷ []

  -- `except ValueError: continue`
  abbrev pub encoded_calls : String → TargetSide F → Labels → Result (List ℕ) → List (Call F)
  encoded_calls name side labels (ok regs) =
      reported name labels (registers_to_float regs side.word_order side.byte_order)
  encoded_calls name side labels (err value_error) = []
  encoded_calls name side labels (err e) = fails e ∷ []

  -- `if si is None: continue`
  abbrev pub register_calls :
      String → Option F → TargetPoint F → TargetSide F → F → Labels → List (Call F)
  register_calls name none pt side ct_ratio labels = []
  register_calls name (some si) pt side ct_ratio labels =
      encoded_calls name side labels (encode_target_point si pt side ct_ratio)

  -- the two loops over the registers of the outputs; `ages` and `images` are the families
  abbrev pub point_calls :
      String
      → String
      → BridgeMetrics F
      → Values F
      → Labels
      → ℕ
      → String
      → TargetSide F
      → Dict String (TargetPoint F)
      → List (Call F)
  point_calls ages images b vs label mono_now map_name side [] = []
  point_calls ages images b vs label mono_now map_name side ((point_name, pt) ∷ rest) =
      let labels = point_labels label map_name side point_name pt in
      read_age_calls ages b.activity side pt labels mono_now
      ++ register_calls images (lookup pt.from_ vs) pt side b.spec.ct_ratio labels
      ++ point_calls ages images b vs label mono_now map_name side rest

  abbrev pub side_calls :
      String
      → String
      → BridgeMetrics F
      → Values F
      → Labels
      → ℕ
      → List (String × TargetSide F)
      → List (Call F)
  side_calls ages images b vs label mono_now [] = []
  side_calls ages images b vs label mono_now ((map_name, side) ∷ rest) =
      point_calls ages images b vs label mono_now map_name side (sorted_points side.points)
      ++ side_calls ages images b vs label mono_now rest

  -- the canonical values, as the family `name`
  unfoldable pub canonical_part : String → Labels → Values F → List (Call F)
  canonical_part name label vs = family name gauge ∷ value_samples name label (sorted_values vs)

  -- the registers of the outputs
  unfoldable pub register_part :
      String → String → BridgeMetrics F → Labels → ℕ → List (String × TargetSide F) → List (Call F)
  register_part ages images b label mono_now targets =
      family images gauge
      ∷ family ages gauge
      ∷ side_calls ages images b b.store.values_ label mono_now targets

  unfoldable pub render_bridge_values :
      MetricsSource F → BridgeMetrics F → Labels → ℕ → List (Call F)
  unfolding canonical_part register_part
  render_bridge_values source b label mono_now =
      canonical_part "bridge_canonical_value" label b.store.values_
      ++ register_part "bridge_dtsu_register_read_age_seconds" "bridge_dtsu_register_value" b label
          mono_now source.targets
