-- ===== src/Tests/Bench.antt =====
-- A bench test of the small register map.
use nd45_dtsu666_converter.Registers.Map.{targets}
use nd45_dtsu666_converter.StaticDebug.Served.{
  expand_static_values_fails_iff, static_sample_complete,
}
use nd45_dtsu666_converter.StaticDebug.Complete.{is_stray}
use nd45_dtsu666_converter.Server.Encode.{update_datastore}
use nd45_dtsu666_converter.StaticDebug.{phases, expand_static_values}
use nd45_dtsu666_converter.Canonical.{Values}
use nd45_dtsu666_converter.Base.Int.{pos}
use nd45_dtsu666_converter.Tests.Numbers.{num, Num, num_floats, num_laws}
use nd45_dtsu666_converter.Tests.Memory.{memory}
use nd45_dtsu666_converter.Tests.Serving.{some_map, blank}
use nd45_dtsu666_converter.Base.{
  key_error, err, ok, ◌∷◌, [], false, true, ◌↔◌, ◌≢◌, refl, ◌≡◌, contains, any, string_eq, nat_eq,
}

-- The map asks for no apparent power.
abbrev stray_power : Values Num
stray_power = ("s_l1", num (pos 5)) ∷ []

expand_static_values_fails_example : (expand_static_values some_map stray_power ≡ err key_error) ↔ (
    (contains "s_total" stray_power ≡ false) × (any (is_stray some_map stray_power) phases ≡ true))
expand_static_values_fails_example = expand_static_values_fails_iff some_map stray_power

stray_fails : expand_static_values some_map stray_power ≡ err key_error
stray_fails = (expand_static_values_fails_iff some_map stray_power).1 (refl, refl)

abbrev bench_values : Values Num
bench_values = ("p_total", num (pos 1500)) ∷ []

static_sample_complete_example :
    (vs : Values Num) × (expand_static_values some_map bench_values ≡ ok vs)
    × ((update_datastore blank vs (targets some_map) (num (pos 40))).0 ≢ err key_error)
static_sample_complete_example =
    static_sample_complete num_laws some_map bench_values blank (num (pos 40)) refl
