-- ===== src/Tests/Serving.antt =====
-- A small register map, polled and served.
use nd45_dtsu666_converter.App.Agreement.{run_poller, run_poller-Agrees, Agrees, PollTurn}
use nd45_dtsu666_converter.App.Chain.{nd45_sample_complete}
use nd45_dtsu666_converter.Canonical.Spread.{
  record_sample, new_stats, Tracked, record_sample-IsTracking, new_stats-IsTracking,
}
use nd45_dtsu666_converter.Canonical.Derive.{Completes, apply_derive-Completes}
use nd45_dtsu666_converter.Pollers.Nd45.Coverage.{poll_once_raises}
use nd45_dtsu666_converter.Pollers.Nd45.Sample.{poll_once-Accepted, Accepted}
use nd45_dtsu666_converter.Pollers.Nd45.{
  read_point, poll_once, out_of_range, read_groups, read_blocks, extract_pair, note_reading,
  validate_source_coverage, decode_points,
}
use nd45_dtsu666_converter.Registers.Map.{
  RegisterMap, derive_targets, check_every_source_produces, targets,
}
use nd45_dtsu666_converter.Registers.Overlap.{AllSeparated, check_point_ranges_do_not_overlap_iff}
use nd45_dtsu666_converter.Server.Encode.Missing.{Present}
use nd45_dtsu666_converter.Server.Encode.Image.{Disjoint, Serves}
use nd45_dtsu666_converter.Server.Encode.Update.{update_datastore-Serves, update_datastore_atomic}
use nd45_dtsu666_converter.Server.Encode.{
  encode_target_point, pending_writes, update_datastore, points_of,
}
use nd45_dtsu666_converter.Registers.{
  sum, avg, check_shape, SourceSide, fc3, split_equal, SourcePoint, TargetPoint, TargetSide,
  DeriveOp, check_point_ranges_do_not_overlap, fc4, check_arity,
}
use nd45_dtsu666_converter.Pollers.{registers, raised, Client}
use nd45_dtsu666_converter.Codec.{
  float_to_registers, encode_point, registers_to_float, bytes_word, decode_point, word_bytes,
}
use nd45_dtsu666_converter.Canonical.{new_store, compute_derived, apply_derive, Values}
use nd45_dtsu666_converter.Stats.{new_poll_stats, new_heartbeat}
use nd45_dtsu666_converter.App.{new_reporter, Bridge}
use nd45_dtsu666_converter.Base.Int.{pos}
use nd45_dtsu666_converter.Base.{
  os_error, poll_error, key_error, value_error, err, ok, arith, ◌∷◌, [], List, some, none, false,
  true, ◌⊎◌, ◌↔◌, ◌≢◌, refl, ◌≡◌, String, values, All, replicate, of_nat, ℕ, string_eq, nat_eq,
}
use nd45_dtsu666_converter.Tests.Numbers.{num_floats, num_laws, num, Num}
use nd45_dtsu666_converter.Tests.Memory.{memory, memory_laws, Memory}

abbrev meter_point : ℕ → SourcePoint Num
meter_point a = record {
  addr = some a;
  compose = none;
  factors = none;
  scale = num (pos 2);
  offset = num (pos 0);
  sign = pos 1;
  dtype = "float32";
  aggregate = avg;
}

abbrev pub meter : SourceSide Num
meter = record {
  word_order = "big";
  byte_order = "big";
  points = ("p_total", meter_point 50) ∷ ("imp_energy_total", meter_point 818) ∷ [];
  read_groups = none;
  address_offset = pos 0;
  derive = [];
}

abbrev served_point : ℕ → String → TargetPoint Num
served_point a name = record {
  addr = a;
  from_ = name;
  scale = num (pos 10);
  offset = num (pos 0);
  sign = pos 1;
  divide_by_ct = true;
  zero_low_word = false;
}

abbrev pub served : TargetSide Num
served = record {
  word_order = "big";
  byte_order = "big";
  function_code = fc3;
  points =
      ("power", served_point 8192 "p_total")
      ∷ ("energy", served_point 8194 "active_energy_total")
      ∷ [];
}

abbrev served_empty : TargetSide Num
served_empty = record { word_order = "big"; byte_order = "big"; function_code = fc4; points = [] }

abbrev pub some_map : RegisterMap Num
some_map = record {
  nd45_source = meter;
  dtsu_target = served;
  dtsu_sigen_ext_target = served_empty;
  dtsu_sigen_ext_energy = served_empty;
  dtsu_sigen_identity = record { points = [] };
  huawei_plant_source = none;
  huawei_meter_source = none;
  etango_source = none;
}

-- Every register of the meter reads 1.
abbrev answering : Client
answering base count unit_id = registers (replicate count 1)

abbrev silent : Client
silent base count unit_id = raised os_error

abbrev measured : Values Num
measured = ("p_total", num (pos 131074)) ∷ ("imp_energy_total", num (pos 131074)) ∷ []

zero_in_range : out_of_range (of_nat {F = Num} 0) ≡ false
unfolding out_of_range
zero_in_range = refl

polled : (poll_once answering meter 1 none).0 ≡ ok (compute_derived measured)
unfolding poll_once read_blocks decode_points read_point extract_pair registers_to_float
    decode_point out_of_range note_reading compute_derived word_bytes
polled = refl

poll_once-Accepted_example : Accepted zero_in_range meter (compute_derived measured)
poll_once-Accepted_example = poll_once-Accepted zero_in_range answering meter 1 none polled

shapes : All (λ pt. check_shape pt ≡ ok tt) (values meter.points)
unfolding check_shape
shapes = (refl, (refl, tt))

covered : validate_source_coverage meter ≡ ok tt
unfolding validate_source_coverage
covered = refl

refused : (poll_once silent meter 1 none).0 ≡ err os_error
unfolding poll_once read_blocks
refused = refl

poll_once_raises_example :
    (os_error ≡ poll_error) ⊎ (read_blocks silent 1 read_groups ≡ err os_error)
poll_once_raises_example = poll_once_raises silent meter 1 none shapes covered refused

checked_map : check_every_source_produces some_map ≡ ok tt
unfolding check_every_source_produces
checked_map = refl

abbrev pub blank : Memory
blank fc a = 0

nd45_sample_complete_example :
    (update_datastore blank (compute_derived measured) (targets some_map) (num (pos 40))).0
    ≢ err key_error
nd45_sample_complete_example =
    nd45_sample_complete num_laws zero_in_range some_map answering 1 none blank (num (pos 40))
      checked_map refl polled

abbrev sample : Values Num
sample = ("p_total", num (pos 400)) ∷ ("active_energy_total", num (pos 800)) ∷ []

-- A ratio of zero refuses every sample.
refused_ratio : (update_datastore blank sample (served ∷ []) (num (pos 0))).0 ≡ err value_error
unfolding update_datastore pending_writes encode_target_point
refused_ratio = refl

update_datastore_atomic_example :
    (update_datastore blank sample (served ∷ []) (num (pos 0))).1 ≡ blank
update_datastore_atomic_example =
    update_datastore_atomic blank sample (served ∷ []) (num (pos 0)) refused_ratio

accepted_sample : (update_datastore blank sample (served ∷ []) (num (pos 40))).0 ≡ ok tt
unfolding update_datastore pending_writes encode_target_point encode_point float_to_registers
    bytes_word
accepted_sample = refl

served_disjoint : Disjoint (points_of (served ∷ []))
served_disjoint = ground arith

update_datastore-Serves_example :
    All
      (Serves (update_datastore blank sample (served ∷ []) (num (pos 40))).1 sample (num (pos 40)))
      (points_of (served ∷ []))
update_datastore-Serves_example =
    update_datastore-Serves num_laws memory_laws sample (num (pos 40)) blank (served ∷ [])
      served_disjoint accepted_sample

sample-Present : All (Present sample) (points_of (served ∷ []))
sample-Present = (refl, (refl, tt))

check_point_ranges_example :
    (check_point_ranges_do_not_overlap served ≡ ok tt) ↔ AllSeparated (values served.points)
check_point_ranges_example = check_point_ranges_do_not_overlap_iff served

abbrev pub new_bridge : Bridge Num Memory
new_bridge = record {
  store = new_store;
  slave = blank;
  heartbeat = new_heartbeat;
  reporter = new_reporter 60;
  spread = new_stats ("p_total" ∷ []) 30;
  poll_stats = new_poll_stats;
}

abbrev some_turns : List (PollTurn Num)
some_turns =
    record { outcome = ok sample; loop_time = 1; monotonic = 1 }
    ∷ record { outcome = err os_error; loop_time = 2; monotonic = 2 }
    ∷ record { outcome = ok []; loop_time = 3; monotonic = 3 }
    ∷ []

run_poller_example :
    Agrees num_laws memory_laws
      (served ∷ [])
      (num (pos 40))
      served_disjoint
      (run_poller (served ∷ []) (num (pos 40)) some_turns new_bridge)
run_poller_example =
    run_poller-Agrees (served ∷ []) (num (pos 40)) num_laws memory_laws served_disjoint some_turns
      new_bridge (λ t e. absurd (cc))

abbrev some_steps : List (DeriveOp Num)
some_steps =
    record {
      op = split_equal;
      targets = "p_l1" ∷ "p_l2" ∷ [];
      from_ = "p_total" ∷ [];
      weights = [];
      value = none;
      aggregate = sum;
    }
    ∷ []

steps_checked : All (λ o. check_arity o ≡ ok tt) some_steps
unfolding check_arity
steps_checked = (refl, tt)

apply_derive_example :
    Completes "p_l1" (derive_targets some_steps) sample (apply_derive sample some_steps)
apply_derive_example =
    apply_derive-Completes "p_l1" some_steps sample (λ n. ground arith) steps_checked

record_sample_example :
    Tracked (new_stats ("p_total" ∷ []) 30) (record_sample (new_stats ("p_total" ∷ []) 30) sample)
record_sample_example =
    record_sample-IsTracking (new_stats ("p_total" ∷ []) 30) sample
      (new_stats-IsTracking Num 30 ("p_total" ∷ []))
