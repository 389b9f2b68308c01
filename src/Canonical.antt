-- ===== src/Canonical.antt =====
-- src/nd45_dtsu666/canonical.py: the canonical SI store with its freshness gate, the derived
-- points, and the statistics of recent samples. A sample is a dict from point names to floats.
pub mod Raises
pub mod Derive
pub mod Spread
use nd45_dtsu666_converter.Base.{
  false, true, type_error, index_error, err, ok, map, ◌∷◌, [], List, some, none, Option, ◌||◌, not,
  Bool, String, ◌*◌, ◌+◌, Result, ◌>>◌, ◌>>=◌, insert, lookup, Dict, get_elem?, length, Floats,
  quotient, of_nat, string_eq, nat_eq, if◌then◌else◌, ℕ,
}
use nd45_dtsu666_converter.Registers.{
  DeriveOp, DeriveKind, constant, copy, split_equal, phase_from_line, hypot, ratio_split,
  pf_from_p_s,
}
use nd45_dtsu666_converter.Clock.{Age, age_since, age_le}

abbrev pub Values : Type 0 → Type 0
Values F = Dict String F

-- `CanonicalStore`
pub record CanonicalStore (F : Type 0) : Type 0 where
  pub values_ : Values F
  pub ts : Option ℕ

module _ {F : Type 0} where
  abbrev pub new_store : CanonicalStore F
  new_store = record { values_ = []; ts = none }

  unfoldable pub store_update : CanonicalStore F → Values F → ℕ → CanonicalStore F
  store_update s vs t = record s { values_ = vs; ts = some t }

  unfoldable pub store_age : CanonicalStore F → ℕ → Age
  store_age s now = age_since s.ts now

  unfoldable pub is_fresh : CanonicalStore F → ℕ → ℕ → Bool
  unfolding store_age
  is_fresh s now max_age = age_le (store_age s now) max_age

-- `HealthGate.should_serve`, for a gate made with `max_age`
unfoldable pub should_serve : ℕ → Age → Bool
should_serve max_age age = age_le age max_age

-- `xs[i]`
abbrev pub index : List String → ℕ → Result String
index xs i = elim (get_elem? xs i) [ none ↦ err index_error | some x ↦ ok x ]

module _ {F : Type 0} ⦃fl : Floats F⦄ where
  -- `values.get(name, 0.0)`
  abbrev pub get_zero : Values F → String → F
  get_zero vs name = elim (lookup name vs) [ none ↦ of_nat 0 | some v ↦ v ]

  unfoldable pub compute_derived : Values F → Values F
  compute_derived vs =
      let imp = get_zero vs "imp_energy_total" in
      let exp = get_zero vs "exp_energy_total" in
      insert "net_exp_energy_total" exp
        (insert "net_imp_energy_total" imp (insert "active_energy_total" (fl.add imp exp) vs))

  -- `_get`
  abbrev pub get_or_nan : Values F → String → F
  get_or_nan vs name = elim (lookup name vs) [ none ↦ fl.nan | some v ↦ v ]

  -- `for target in targets: values[target] = v`
  abbrev pub set_all : List String → F → Values F → Values F
  set_all [] v vs = vs
  set_all (t ∷ ts) v vs = set_all ts v (insert t v vs)

  -- the loop over `zip(op.targets, op.from_)` of 'phase_from_line'; the divisor is not zero
  abbrev pub phase_from_lines : List String → List String → Values F → Values F
  phase_from_lines (t ∷ ts) (line ∷ lines) vs =
      phase_from_lines ts lines (insert t (fl.div (get_or_nan vs line) fl.sqrt_three) vs)
  phase_from_lines _ _ vs = vs

  -- the value of one target of 'hypot' and of 'pf_from_p_s'
  abbrev pub hypot_of : F → F → Result F
  hypot_of a b = ok (fl.hypot a b)

  abbrev pub pf_of : F → F → Result F
  pf_of p s = if fl.eq s (of_nat 0) then ok (of_nat 1) else quotient p s

  -- the loop over `enumerate(op.targets)` of those two, from `i` on
  abbrev pub pair_loop :
      (F → F → Result F) → List String → List String → ℕ → Values F → Result (Values F)
  pair_loop f from_ [] i vs = ok vs
  pair_loop f from_ (t ∷ ts) i vs = do
    a ← index from_ (2 * i)
    b ← index from_ (2 * i + 1)
    v ← f (get_or_nan vs a) (get_or_nan vs b)
    pair_loop f from_ ts (i + 1) (insert t v vs)

  -- the loop over `zip(op.targets, weights)`
  abbrev pub weight_loop : F → F → List String → List F → Values F → Result (Values F)
  weight_loop total weight_sum (t ∷ ts) (w ∷ ws) vs = do
    v ← quotient (fl.mul total (fl.abs w)) weight_sum
    weight_loop total weight_sum ts ws (insert t v vs)
  weight_loop total weight_sum _ _ vs = ok vs

  -- `_apply_ratio_split`
  unfoldable pub apply_ratio_split : Values F → DeriveOp F → Result (Values F)
  apply_ratio_split vs o = do
    source ← index o.from_ 0
    let total = get_or_nan vs source
    let weights = map (get_or_nan vs) o.weights
    weight_sum ← fl.fsum (map fl.abs weights)
    elim (not (fl.is_finite weight_sum) || fl.eq weight_sum (of_nat 0)) [
      | true ↦ do
        share ← quotient total (of_nat (length o.targets))
        ok (set_all o.targets share vs)
      | false ↦ weight_loop total weight_sum o.targets weights vs
    ]

  -- one round of `apply_derive`, by the kind of the step
  unfoldable pub apply_kind : DeriveKind → DeriveOp F → Values F → Result (Values F)
  apply_kind constant o vs = elim o.value [
    | none ↦ err type_error
    | some v ↦ ok (set_all o.targets v vs)
  ]
  apply_kind copy o vs = do
    source ← index o.from_ 0
    ok (set_all o.targets (get_or_nan vs source) vs)
  apply_kind split_equal o vs = do
    source ← index o.from_ 0
    share ← quotient (get_or_nan vs source) (of_nat (length o.targets))
    ok (set_all o.targets share vs)
  apply_kind phase_from_line o vs = ok (phase_from_lines o.targets o.from_ vs)
  apply_kind hypot o vs = pair_loop hypot_of o.from_ o.targets 0 vs
  apply_kind ratio_split o vs = apply_ratio_split vs o
  apply_kind pf_from_p_s o vs = pair_loop pf_of o.from_ o.targets 0 vs

  unfoldable pub apply_derive : Values F → List (DeriveOp F) → Result (Values F)
  apply_derive vs [] = ok vs
  apply_derive vs (o ∷ ops) = apply_kind o.op o vs >>= λ next. apply_derive next ops
