-- ===== src/Registers.antt =====
-- src/nd45_dtsu666/config.py, its first half: the register map (registers.json) and the validators
-- that run when it is loaded. A validator returns `ok tt` or the `ValueError` that pydantic turns
-- into a load error. Addresses and counts are natural numbers; the type checks of pydantic itself
-- (a `Literal`, an `int`) are the types of the fields.
pub mod Overlap
pub mod Map
use nd45_dtsu666_converter.Base.{
  ℕ, suc, ◌+◌, ◌*◌, String, Bool, true, false, not, ◌&&◌, ◌||◌, Option, none, some, List, [], ◌∷◌,
  ◌++◌, ltb, leb, eqb, if◌then◌else◌, ◌==◌, length, any, all, Dict, lookup, insert, contains, keys,
  values, mem, is_some, Result, ok, err, value_error, ◌>>=◌, ◌>>◌, raise_if, Floats, string_eq,
  nat_eq,
}
use nd45_dtsu666_converter.Base.Int.{ℤ}
use nd45_dtsu666_converter.Codec.{register_width}

-- `MAX_READ_REGISTERS`
abbrev pub max_read_registers : ℕ
max_read_registers = 125

pub data Aggregate : Type 0 where
  avg sum : Aggregate

pub record SourcePoint (F : Type 0) : Type 0 where
  pub addr : Option ℕ
  pub compose : Option (List ℕ)
  pub factors : Option (List F)
  pub scale : F
  pub offset : F
  pub sign : ℤ
  pub dtype : String
  pub aggregate : Aggregate

pub record ReadGroup : Type 0 where
  pub base : ℕ
  pub count : ℕ
  pub unit_id : Option ℕ

pub data DeriveKind : Type 0 where
  constant copy split_equal phase_from_line hypot ratio_split pf_from_p_s : DeriveKind

pub record DeriveOp (F : Type 0) : Type 0 where
  pub op : DeriveKind
  pub targets : List String
  pub from_ : List String
  pub weights : List String
  pub value : Option F
  pub aggregate : Aggregate

pub record TargetPoint (F : Type 0) : Type 0 where
  pub addr : ℕ
  pub from_ : String
  pub scale : F
  pub offset : F
  pub sign : ℤ
  pub divide_by_ct : Bool
  pub zero_low_word : Bool

pub record SourceSide (F : Type 0) : Type 0 where
  pub word_order : String
  pub byte_order : String
  pub points : Dict String (SourcePoint F)
  pub read_groups : Option (List ReadGroup)
  pub address_offset : ℤ
  pub derive : List (DeriveOp F)

pub data FunctionCode : Type 0 where
  fc3 fc4 : FunctionCode

pub record TargetSide (F : Type 0) : Type 0 where
  pub word_order : String
  pub byte_order : String
  pub function_code : FunctionCode
  pub points : Dict String (TargetPoint F)

-- `Field(gt=0, le=MAX_READ_REGISTERS)` of `ReadGroup.count`
abbrev pub check_count : ReadGroup → Result (Unit {0})
check_count g = raise_if (not (ltb 0 g.count && leb g.count max_read_registers)) value_error

-- An absent list counts as empty where the code tests `if xs`.
abbrev pub or_empty {ℓ} : {A : Type ℓ} → Option (List A) → List A
or_empty none = []
or_empty (some xs) = xs

-- `_check_arity` by kind of step: what `from` and `value` have to be.
abbrev pub check_sources :
    {F : Type 0} ⦃fl : Floats F⦄ → DeriveKind → DeriveOp F → Result (Unit {0})
check_sources ⦃fl⦄ constant o = do
  raise_if (not (elim o.value [ none ↦ false | some v ↦ fl.is_finite v ])) value_error
  raise_if (not (eqb (length o.from_) 0)) value_error
check_sources copy o = raise_if (not (eqb (length o.from_) 1)) value_error
check_sources split_equal o = raise_if (not (eqb (length o.from_) 1)) value_error
check_sources ratio_split o = raise_if (not (eqb (length o.from_) 1)) value_error
check_sources phase_from_line o =
    raise_if (not (eqb (length o.from_) (length o.targets))) value_error
check_sources hypot o = raise_if (not (eqb (length o.from_) (2 * length o.targets))) value_error
check_sources pf_from_p_s o =
    raise_if (not (eqb (length o.from_) (2 * length o.targets))) value_error

abbrev pub is_ratio_split : DeriveKind → Bool
is_ratio_split ratio_split = true
is_ratio_split _ = false

abbrev pub is_constant : DeriveKind → Bool
is_constant constant = true
is_constant _ = false

-- `any(lo <= addr and addr + width <= hi for lo, hi in spans)`
abbrev pub in_spans : ℕ → ℕ → List ReadGroup → Bool
in_spans addr w groups = any (λ g. leb g.base addr && leb (addr + w) (g.base + g.count)) groups

-- every element passes the check
abbrev pub check_each : {A : Type 0} → (A → Result (Unit {0})) → List A → Result (Unit {0})
check_each f [] = ok tt
check_each f (x ∷ xs) = f x >> check_each f xs

-- one round of the loop of `TargetSide._check_point_ranges_do_not_overlap`
abbrev pub occupy : Dict ℕ String → String → ℕ → Result (Dict ℕ String)
occupy occupied name a =
    if contains a occupied then err value_error else ok (insert a name occupied)

module _ {F : Type 0} ⦃fl : Floats F⦄ where
  -- `SourcePoint._check_shape`
  unfoldable pub check_shape : SourcePoint F → Result (Unit {0})
  check_shape pt = elim pt.compose [
    | some addrs ↦ do
      raise_if (is_some pt.addr) value_error
      raise_if (ltb (length addrs) 1) value_error
      raise_if (elim pt.factors [ none ↦ false | some fs ↦ not (eqb (length fs) (length addrs)) ])
          value_error
      raise_if (not (pt.dtype == "float32")) value_error
    | none ↦ raise_if (not (is_some pt.addr)) value_error
  ]

  -- `DeriveOp._check_arity`, after `Field(min_length=1)` of `targets`
  unfoldable pub check_arity : DeriveOp F → Result (Unit {0})
  check_arity o = do
    raise_if (ltb (length o.targets) 1) value_error
    check_sources o.op o
    raise_if
        (if is_ratio_split o.op
          then not (eqb (length o.weights) (length o.targets))
          else not (eqb (length o.weights) 0))
        value_error
    raise_if (not (is_constant o.op) && is_some o.value) value_error

  -- `SourcePoint.width`
  abbrev pub width : SourcePoint F → Result ℕ
  width pt = register_width pt.dtype

  abbrev pub check_point_covered : List ReadGroup → SourcePoint F → Result (Unit {0})
  check_point_covered groups pt = elim pt.addr [
    | none ↦ ok tt
    | some a ↦ do w ← width pt; raise_if (not (in_spans a w groups)) value_error
  ]

  -- `SourceSide._check_points_covered_by_read_groups`
  unfoldable pub check_points_covered : SourceSide F → Result (Unit {0})
  check_points_covered s = elim s.read_groups [
    | none ↦ ok tt
    | some groups ↦ check_each (check_point_covered groups) (values s.points)
  ]

module _ {F : Type 0} where
  unfoldable pub check_overlap_from :
      Dict ℕ String → Dict String (TargetPoint F) → Result (Unit {0})
  check_overlap_from occupied [] = ok tt
  check_overlap_from occupied ((name, pt) ∷ rest) = do
    once ← occupy occupied name pt.addr
    twice ← occupy once name (pt.addr + 1)
    check_overlap_from twice rest

  unfoldable pub check_point_ranges_do_not_overlap : TargetSide F → Result (Unit {0})
  unfolding check_overlap_from
  check_point_ranges_do_not_overlap t = check_overlap_from [] t.points
