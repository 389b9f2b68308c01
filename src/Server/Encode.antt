-- ===== src/Server/Encode.antt =====
-- dtsu_server.py: `encode_target_point` and `update_datastore`. A target list is a list of sides,
-- as `_targets` makes it. A raise leaves the datastore as the code had left it, so the result is
-- paired with the datastore.
pub mod Image
pub mod Update
pub mod Missing
use nd45_dtsu666_converter.Base.{
  map, key_error, value_error, err, ok, ◌++◌, ◌∷◌, [], List, some, none, ◌||◌, not, false, true,
  Bool, String, Result, raise_if, ◌>>◌, ◌>>=◌, lookup, values, Floats, quotient, of_nat, string_eq,
  nat_eq, ℕ,
}
use nd45_dtsu666_converter.Registers.{FunctionCode, TargetPoint, TargetSide}
use nd45_dtsu666_converter.Codec.{encode_point}
use nd45_dtsu666_converter.Canonical.{Values}
use nd45_dtsu666_converter.Datastore.{Datastore}

-- one pending write: function code, address, registers
pub record Write : Type 0 where
  pub function_code : FunctionCode
  pub address : ℕ
  pub registers : List ℕ

abbrev pub is_empty {ℓ} : {A : Type ℓ} → List A → Bool
is_empty [] = true
is_empty (_ ∷ _) = false

-- `if missing: raise KeyError`
abbrev pub complete : List Write × List String → Result (List Write)
complete (pending, missing) = raise_if (not (is_empty missing)) key_error >> ok pending

module _ {F : Type 0} where
  -- `for side in targets: for pt in side.points.values()`, as one list of rounds
  abbrev pub points_of : List (TargetSide F) → List (TargetSide F × TargetPoint F)
  points_of [] = []
  points_of (side ∷ sides) = map (λ pt. (side, pt)) (values side.points) ++ points_of sides

module _ {F : Type 0} ⦃fl : Floats F⦄ where
  -- the division by the CT ratio, if the point asks for it
  abbrev pub ct_divided : F → Bool → F → Result F
  ct_divided si false ct_ratio = ok si
  ct_divided si true ct_ratio = do
    raise_if (not (fl.is_finite ct_ratio) || fl.le ct_ratio (of_nat 0)) value_error
    quotient si ct_ratio

  unfoldable pub encode_target_point : F → TargetPoint F → TargetSide F → F → Result (List ℕ)
  encode_target_point si pt side ct_ratio = do
    value ← ct_divided si pt.divide_by_ct ct_ratio
    encode_point value pt.scale pt.sign pt.offset side.word_order side.byte_order pt.zero_low_word

  -- The first loop of `update_datastore`: pending writes and missing names, in order.
  abbrev pub gather :
      Values F → F → List (TargetSide F × TargetPoint F) → Result (List Write × List String)
  gather canonical ct_ratio [] = ok ([], [])
  gather canonical ct_ratio ((side, pt) ∷ rest) = elim (lookup pt.from_ canonical) [
    | none ↦ do later ← gather canonical ct_ratio rest; ok (later.0, pt.from_ ∷ later.1)
    | some si ↦ do
      regs ← encode_target_point si pt side ct_ratio
      later ← gather canonical ct_ratio rest
      ok (
        record { function_code = side.function_code; address = pt.addr; registers = regs }
            ∷ later.0,
        later.1,
      )
  ]

  unfoldable pub pending_writes : Values F → F → List (TargetSide F) → Result (List Write)
  pending_writes canonical ct_ratio sides = gather canonical ct_ratio (points_of sides) >>= complete

module _ {S : Type 0} ⦃ds : Datastore S⦄ where
  -- the second loop: `slave.setValues(function_code, address, registers)`
  unfoldable pub write_all : S → List Write → S
  write_all s [] = s
  write_all s (w ∷ ws) = write_all (ds.set_values s w.function_code w.address w.registers) ws

  abbrev pub commit : S → Result (List Write) → Result (Unit {0}) × S
  commit s (ok pending) = (ok tt, write_all s pending)
  commit s (err e) = (err e, s)

module _ {F S : Type 0} ⦃fl : Floats F⦄ ⦃ds : Datastore S⦄ where
  unfoldable pub update_datastore : S → Values F → List (TargetSide F) → F → Result (Unit {0}) × S
  update_datastore s canonical sides ct_ratio = commit s (pending_writes canonical ct_ratio sides)
