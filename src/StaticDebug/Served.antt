-- ===== src/StaticDebug/Served.antt =====
-- static_debug.py: the sample of a bench test, made and served.
use nd45_dtsu666_converter.App.Chain.{Named-points}
use nd45_dtsu666_converter.Pollers.Nd45.Sample.{compute_derived_keys}
use nd45_dtsu666_converter.Registers.Map.{targets, RegisterMap, needed}
use nd45_dtsu666_converter.StaticDebug.Complete.{is_stray, powered-keys, add_total-cases}
use nd45_dtsu666_converter.Server.Encode.Missing.{update_datastore_complete}
use nd45_dtsu666_converter.Server.Encode.{update_datastore}
use nd45_dtsu666_converter.Datastore.{Datastore}
use nd45_dtsu666_converter.StaticDebug.{phases, expand_static_values}
use nd45_dtsu666_converter.Canonical.{Values, compute_derived}
use nd45_dtsu666_converter.Base.{
  key_error, err, ok, arith, ◌∷◌, [], List, ◌||◌, not, false, true, inr, inl, ◌↔◌, ◌≢◌, ◌∙◌, refl,
  ◌≡◌, String, contains, mem, all, any, FloatLaws, Floats, string_eq, nat_eq,
}

module _ {F : Type 0} ⦃fl : Floats F⦄ where
  -- The values of a bench test cannot be completed, with `KeyError`, if and only if the total apparent
  -- power is not configured while that of some phase is, although no output map asks for it.
  pub expand_static_values_fails_iff :
      (m : RegisterMap F) (configured : Values F)
      → (expand_static_values m configured ≡ err key_error)
        ↔ ((contains "s_total" configured ≡ false) × (any (is_stray m configured) phases ≡ true))
  unfolding expand_static_values
  expand_static_values_fails_iff m configured = elim (add_total-cases configured m) [
    | inl (not_given, stray, e) ↦ (λ h. (not_given, stray), λ h. rw e refl)
    | inr (vs, fine, e, kept) ↦
        (λ h. absurd (cc (rw e at h)), λ h. absurd (ground (arith, fine, h.0, h.1)))
  ]

  all_keys :
      (vs : Values F) (names : List String)
      → ((k : String) → mem k names ≡ true → contains k vs ≡ true)
      → all (λ k. contains k vs) names ≡ true
  all_keys vs [] f = refl
  all_keys vs (n ∷ ns) f =
      let first = f n (ground (arith, string_eq.beq_iff n n)) in
      let rest = all_keys vs ns (λ k h. f k (ground (arith, h))) in ground (arith, first, rest)

module _ {F S : Type 0} ⦃fl : Floats F⦄ ⦃ds : Datastore S⦄ (laws : FloatLaws fl) where
  -- If the total apparent power is configured, or no phase has one that no output map asks for, the
  -- values of a bench test are completed, and the sample is never refused for a missing value.
  pub static_sample_complete :
      (m : RegisterMap F) (configured : Values F) (s : S) (ct_ratio : F)
      → contains "s_total" configured || not (any (is_stray m configured) phases) ≡ true
      → (vs : Values F) × (expand_static_values m configured ≡ ok vs)
        × ((update_datastore s vs (targets m) ct_ratio).0 ≢ err key_error)
  unfolding expand_static_values
  static_sample_complete m configured s ct_ratio h = elim (add_total-cases configured m) [
    | inl (not_given, stray, e) ↦ absurd (ground (arith, not_given, stray))
    | inr (vs, fine, e, kept) ↦ (
      compute_derived vs,
      rw e refl,
      update_datastore_complete laws (compute_derived vs) ct_ratio s (targets m) (
          Named-points (λ k. contains k (compute_derived vs)) (targets m)
            (all_keys (compute_derived vs) (needed (targets m)) λ k needed_.
              let there = kept k (ground (arith, powered-keys configured m k, needed_)) in
              compute_derived_keys k vs ∙ ground (arith, there))),
    )
  ]
