-- ===== src/Pollers/Etango.antt =====
-- src/nd45_dtsu666/etango_poller.py: the e2TANGO source, several controllers in one sample. Each is
-- read, decoded, derived and checked on its own; then the aggregating ones are averaged or summed
-- point by point. The points of a combined sample stand in the order of their first appearance; the
-- source walks a set, so its order is arbitrary, and nothing reads it.
pub mod Strict
pub mod Order
pub mod Devices
use nd45_dtsu666_converter.Registers.Map.{targets}
use nd45_dtsu666_converter.Pollers.{registers_of, require_groups, read_declared, Client, Groups}
use nd45_dtsu666_converter.Canonical.{compute_derived, Values, apply_derive}
use nd45_dtsu666_converter.Base.{
  poll_error, err, ok, ◌++◌, ◌∷◌, [], List, some, none, Option, not, false, Bool, String, Result,
  map_ok, raise_if, ◌>>◌, insert, lookup, values, keys, mem, Dict, all, length, Floats, quotient,
  of_nat, if◌then◌else◌, ℕ, string_eq, nat_eq, ◌>>=◌,
}
use nd45_dtsu666_converter.Registers.{
  DeriveOp, SourceSide, or_empty, SourcePoint, Aggregate, avg, sum,
}
use nd45_dtsu666_converter.Codec.{registers_to_float, scale_raw}
use nd45_dtsu666_converter.Pollers.Nd45.{out_of_range}

-- One controller. Its host only appears in messages.
pub record DeviceLink : Type 0 where
  pub client : Client
  pub unit_id : ℕ
  pub aggregate : Bool

-- `results.append(bool(await link.client.connect()))`, or False if it raises
abbrev pub connect_answer : Result Bool → Bool
connect_answer (ok b) = b
connect_answer (err _) = false

-- `MultiHostClient.connect`, given what each device answers; every device is asked.
unfoldable pub connect_all : List (Result Bool) → Bool
connect_all answers = all connect_answer answers

-- `MultiHostClient.connected`; a client without the attribute counts as not connected.
unfoldable pub all_connected : List (Option Bool) → Bool
all_connected flags = all (λ flag. elim flag [ none ↦ false | some b ↦ b ]) flags

-- `keys.update(values)`
abbrev pub add_keys : List String → List String → List String
add_keys [] ks = ks
add_keys (n ∷ new) ks = add_keys new (if mem n ks then ks else ks ++ n ∷ [])

module _ {F : Type 0} ⦃fl : Floats F⦄ where
  -- `validate_source_coverage`
  unfoldable pub validate_source_coverage : SourceSide F → Result (Unit {0})
  validate_source_coverage source = require_groups source.read_groups

  unfoldable pub read_groups : Client → SourceSide F → ℕ → Result Groups
  read_groups client source unit_id =
      read_declared client source.address_offset unit_id (or_empty source.read_groups)

  -- the value of one point; a raw value out of range ends the poll
  abbrev pub decode_value : SourceSide F → SourcePoint F → List ℕ → Result F
  decode_value source pt regs = do
    raw ← registers_to_float regs source.word_order source.byte_order
    raise_if (out_of_range raw) poll_error
    ok (scale_raw raw pt.scale pt.sign pt.offset)

  -- the loop of `decode_source`
  unfoldable pub decode_from :
      SourceSide F → Groups → Dict String (SourcePoint F) → Values F → Result (Values F)
  decode_from source groups [] vs = ok vs
  decode_from source groups ((key, pt) ∷ rest) vs =
      (registers_of pt groups >>= decode_value source pt) >>= λ v.
      decode_from source groups rest (insert key v vs)

  unfoldable pub decode_source : SourceSide F → Groups → Result (Values F)
  decode_source source groups = decode_from source groups source.points []

  -- `_aggregate_mode`
  abbrev pub mode_of_steps : String → List (DeriveOp F) → Aggregate
  mode_of_steps key [] = avg
  mode_of_steps key (o ∷ ops) = if mem key o.targets then o.aggregate else mode_of_steps key ops

  unfoldable pub aggregate_mode : String → SourceSide F → Aggregate
  aggregate_mode key source = elim (lookup key source.points) [
    | none ↦ mode_of_steps key source.derive
    | some pt ↦ pt.aggregate
  ]

  -- `[values[key] for values in per_device if key in values]`
  abbrev pub readings : String → List (Values F) → List F
  readings key [] = []
  readings key (vs ∷ per_device) = elim (lookup key vs) [
    | none ↦ readings key per_device
    | some v ↦ v ∷ readings key per_device
  ]

  abbrev pub all_keys : List (Values F) → List String → List String
  all_keys [] ks = ks
  all_keys (vs ∷ per_device) ks = all_keys per_device (add_keys (keys vs) ks)

  abbrev pub by_mode : Aggregate → F → ℕ → Result F
  by_mode sum total n = ok total
  by_mode avg total n = quotient total (of_nat n)

  -- one round of the loop of `_combine`
  abbrev pub combine_key : List (Values F) → SourceSide F → String → Result F
  combine_key per_device source key = do
    total ← fl.fsum (readings key per_device)
    by_mode (aggregate_mode key source) total (length (readings key per_device))

  abbrev pub combine_keys :
      List (Values F) → SourceSide F → List String → Values F → Result (Values F)
  combine_keys per_device source [] combined = ok combined
  combine_keys per_device source (key ∷ rest) combined = combine_key per_device source key >>= λ v.
      combine_keys per_device source rest (insert key v combined)

  unfoldable pub combine : List (Values F) → SourceSide F → Result (Values F)
  combine per_device source = combine_keys per_device source (all_keys per_device []) []

  -- `for value in values.values(): if not math.isfinite(value): raise`
  abbrev pub check_finite : List F → Result (Unit {0})
  check_finite [] = ok tt
  check_finite (v ∷ vs) = raise_if (not (fl.is_finite v)) poll_error >> check_finite vs

  -- the reading of one controller: one round of the loop of `poll_once`
  unfoldable pub device_values : SourceSide F → DeviceLink → Result (Values F)
  device_values source link = do
    groups ← read_groups link.client source link.unit_id
    decoded ← decode_source source groups
    vs ← apply_derive decoded source.derive
    check_finite (values vs)
    ok vs

  -- `[values for values, link in zip(per_device, devices) if link.aggregate]`
  abbrev pub aggregating : List (Values F) → List DeviceLink → List (Values F)
  aggregating (vs ∷ per_device) (link ∷ links) =
      let rest = aggregating per_device links in if link.aggregate then vs ∷ rest else rest
  aggregating _ _ = []

  -- `poll_once`
  unfoldable pub poll_once : List DeviceLink → SourceSide F → Result (Values F)
  poll_once devices source = do
    per_device ← map_ok (device_values source) devices
    combined ← combine (aggregating per_device devices) source
    ok (compute_derived combined)
