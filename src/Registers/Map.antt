-- ===== src/Registers/Map.antt =====
-- src/nd45_dtsu666/config.py: `RegisterMap`, the whole of registers.json, and the static identity
-- values that are served beside the measurements.
use nd45_dtsu666_converter.Base.Int.{pos, ℤ}
use nd45_dtsu666_converter.Base.{
  value_error, err, ok, ◌++◌, ◌∷◌, [], List, some, none, Option, not, String, ◌*◌, Result, raise_if,
  ◌>>◌, lookup, keys, mem, Dict, all, length, string_eq, nat_eq, leb, ltb, ℕ,
}
use nd45_dtsu666_converter.Registers.{TargetPoint, SourceSide, TargetSide, DeriveOp}

-- `static_value`: a text as its character codes, or an integer
pub data StaticValue : Type 0 where
  text : List ℕ → StaticValue
  number : ℤ → StaticValue

pub data StaticType : Type 0 where
  ascii uint32 : StaticType

pub record StaticIdentityPoint : Type 0 where
  pub addr : ℕ
  pub type : StaticType
  pub static_value : StaticValue
  pub length_ : Option ℕ

pub record StaticIdentitySide : Type 0 where
  pub points : Dict String StaticIdentityPoint

-- `StaticIdentityPoint._check_shape`; `encode("ascii")` fails at a code of 128 or more
abbrev pub check_static_value : StaticType → StaticValue → Option ℕ → Result (Unit {0})
check_static_value ascii (text cs) (some n) = do
  raise_if (ltb n 1) value_error
  raise_if (not (all (λ c. ltb c 128) cs)) value_error
  raise_if (ltb (n * 2) (length cs)) value_error
check_static_value ascii (text cs) none = err value_error
check_static_value ascii (number _) _ = err value_error
check_static_value uint32 (number (pos n)) none = raise_if (not (leb n 0xFFFFFFFF)) value_error
check_static_value uint32 _ _ = err value_error

unfoldable pub check_static_shape : StaticIdentityPoint → Result (Unit {0})
check_static_shape p = check_static_value p.type p.static_value p.length_

-- `register_count`; None for an ascii point without a length, which the validator refuses
abbrev pub count_of : StaticType → Option ℕ → ℕ
count_of ascii (some n) = n
count_of ascii none = 0
count_of uint32 _ = 2

unfoldable pub register_count : StaticIdentityPoint → ℕ
register_count p = count_of p.type p.length_

pub record RegisterMap (F : Type 0) : Type 0 where
  pub nd45_source : SourceSide F
  pub dtsu_target : TargetSide F
  pub dtsu_sigen_ext_target : TargetSide F
  pub dtsu_sigen_ext_energy : TargetSide F
  pub dtsu_sigen_identity : StaticIdentitySide
  pub huawei_plant_source : Option (SourceSide F)
  pub huawei_meter_source : Option (SourceSide F)
  pub etango_source : Option (SourceSide F)

-- `DERIVED_CANONICAL_KEYS`
abbrev pub derived_canonical_keys : List String
derived_canonical_keys =
    "active_energy_total" ∷ "net_imp_energy_total" ∷ "net_exp_energy_total" ∷ []

module _ {F : Type 0} where
  -- `RegisterMap.targets`, without the names that only label metrics
  abbrev pub targets : RegisterMap F → List (TargetSide F)
  targets m = m.dtsu_target ∷ m.dtsu_sigen_ext_target ∷ m.dtsu_sigen_ext_energy ∷ []

  abbrev pub with_name :
      String → Option (SourceSide F) → List (String × SourceSide F) → List (String × SourceSide F)
  with_name name none rest = rest
  with_name name (some s) rest = (name, s) ∷ rest

  -- the fields that hold a `SourceSide`, by name
  abbrev pub sources : RegisterMap F → List (String × SourceSide F)
  sources m =
      ("nd45_source", m.nd45_source)
      ∷ with_name "huawei_plant_source" m.huawei_plant_source (
          with_name "huawei_meter_source" m.huawei_meter_source
            (with_name "etango_source" m.etango_source []))

  -- `RegisterMap.source_by_name`
  unfoldable pub source_by_name : RegisterMap F → String → Result (SourceSide F)
  source_by_name m name = elim (lookup name (sources m)) [ none ↦ err value_error | some s ↦ ok s ]

  -- `{t for op in side.derive for t in op.targets}`
  abbrev pub derive_targets : List (DeriveOp F) → List String
  derive_targets [] = []
  derive_targets (o ∷ ops) = o.targets ++ derive_targets ops

  abbrev pub produced : SourceSide F → List String
  produced s = keys s.points ++ (derive_targets s.derive ++ derived_canonical_keys)

  -- `{pt.from_ for ... in side.points.values()}`
  abbrev pub needed_of : Dict String (TargetPoint F) → List String
  needed_of [] = []
  needed_of ((_, pt) ∷ rest) = pt.from_ ∷ needed_of rest

  abbrev pub needed : List (TargetSide F) → List String
  needed [] = []
  needed (t ∷ ts) = needed_of t.points ++ needed ts

  abbrev pub check_produces : List String → List (String × SourceSide F) → Result (Unit {0})
  check_produces need [] = ok tt
  check_produces need ((_, s) ∷ rest) = do
    raise_if (not (all (λ k. mem k (produced s)) need)) value_error
    check_produces need rest

  -- `RegisterMap._check_every_source_produces_every_target_point`
  unfoldable pub check_every_source_produces : RegisterMap F → Result (Unit {0})
  check_every_source_produces m = check_produces (needed (targets m)) (sources m)
