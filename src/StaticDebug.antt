-- ===== src/StaticDebug.antt =====
-- src/nd45_dtsu666/static_debug.py: the sample that a bench test serves.
pub mod Complete
pub mod Served
use nd45_dtsu666_converter.Registers.Map.{targets, RegisterMap, needed}
use nd45_dtsu666_converter.Canonical.{compute_derived, get_zero, Values}
use nd45_dtsu666_converter.Base.{
  key_error, err, ok, ◌∷◌, [], List, some, none, String, Result, map_ok, ◌>>=◌, insert, contains,
  lookup, Floats, string_eq, nat_eq, if◌then◌else◌, ℕ,
}

-- An apparent power with the voltage and the current of its phase.
pub record Phase : Type 0 where
  pub s_key : String
  pub u_key : String
  pub i_key : String

-- `for suffix in ("l1", "l2", "l3")`
abbrev pub phases : List Phase
phases =
    record { s_key = "s_l1"; u_key = "u_l1"; i_key = "i_l1" }
    ∷ record { s_key = "s_l2"; u_key = "u_l2"; i_key = "i_l2" }
    ∷ record { s_key = "s_l3"; u_key = "u_l3"; i_key = "i_l3" }
    ∷ []

module _ {F : Type 0} ⦃fl : Floats F⦄ where
  -- `{name: configured.get(name, 0.0) for name in required}`; a set has no order, and neither has
  -- what the code does with this dict
  abbrev pub zero_filled : Values F → List String → Values F
  zero_filled configured [] = []
  zero_filled configured (name ∷ names) =
      insert name (get_zero configured name) (zero_filled configured names)

  -- the loop over the phases
  abbrev pub add_powers : Values F → List Phase → Values F → Values F
  add_powers configured [] vs = vs
  add_powers configured (p ∷ ps) vs = add_powers configured ps (
      if contains p.s_key configured
      then vs
      else insert p.s_key (fl.abs (fl.mul (get_zero vs p.u_key) (get_zero vs p.i_key))) vs)

  -- `values[name]`
  abbrev pub get_item : Values F → String → Result F
  get_item vs name = elim (lookup name vs) [ none ↦ err key_error | some v ↦ ok v ]

  -- `if "s_total" not in configured`
  abbrev pub add_total : Values F → Values F → Result (Values F)
  add_total configured vs =
      if contains "s_total" configured
      then ok vs
      else (map_ok (λ p. get_item vs p.s_key) phases >>= λ powers.
          ok (insert "s_total" (fl.sum powers) vs))

  -- `expand_static_values`
  unfoldable pub expand_static_values : RegisterMap F → Values F → Result (Values F)
  expand_static_values m configured =
      add_total configured
        (add_powers configured phases (zero_filled configured (needed (targets m))))
      >>= λ vs. ok (compute_derived vs)
