-- ===== src/App/Chain.antt =====
-- config.py, the pollers and dtsu_server.py together: the load-time check of the register map, and the
-- points of the samples that are served.
use mathlib.Core.Path.{subst}
use nd45_dtsu666_converter.Pollers.Huawei
use nd45_dtsu666_converter.Pollers.Huawei.Sample.{Scrubbed, huawei_poll-Scrubbed}
use nd45_dtsu666_converter.Pollers.Nd45.Sample.{Accepted, poll_once-Accepted}
use nd45_dtsu666_converter.Pollers.Nd45.{poll_once, out_of_range}
use nd45_dtsu666_converter.Registers.Map.{
  source_by_name, sources, RegisterMap, derive_targets, targets, derived_canonical_keys, needed,
  check_produces, check_every_source_produces, needed_of, produced,
}
use nd45_dtsu666_converter.Server.Encode.Missing.{update_datastore_complete}
use nd45_dtsu666_converter.Server.Encode.{points_of, update_datastore}
use nd45_dtsu666_converter.Registers.{check_arity, SourceSide, TargetSide, TargetPoint}
use nd45_dtsu666_converter.Pollers.{Seen, checked, Client}
use nd45_dtsu666_converter.Datastore.{Datastore}
use nd45_dtsu666_converter.Canonical.{Values}
use nd45_dtsu666_converter.Base.{
  some, inr, inl, lookup, Bool-cases, ◌==◌, key_error, err, ok, arith, map, ◌++◌, ◌∷◌, [], List,
  false, true, Bool, ◌≢◌, ◌∙◌, ap, refl, ◌≡◌, String, mem-append, contains, values, keys, mem, Dict,
  All-imp, All, all, FloatLaws, Floats, of_nat, string_eq, nat_eq, ℕ,
}

module _ (p : String → Bool) where
  all_append :
      (xs ys : List String) → all p (xs ++ ys) ≡ true → (all p xs ≡ true) × (all p ys ≡ true)
  all_append [] ys h = (refl, h)
  all_append (x ∷ xs) ys h = ground (arith, all_append xs ys)

module _ {F : Type 0} (p : String → Bool) where
  abbrev pub Named : TargetSide F × TargetPoint F → Type 0
  Named (side, pt) = p pt.from_ ≡ true

  Named-side :
      (side : TargetSide F) (pts : Dict String (TargetPoint F))
      (more : List (TargetSide F × TargetPoint F))
      → all p (needed_of pts) ≡ true
      → All Named more
      → All Named (map (λ pt. (side, pt)) (values pts) ++ more)
  Named-side side [] more h m = m
  Named-side side ((name, pt) ∷ rest) more h m =
      (ground arith, Named-side side rest more (ground arith) m)

  pub Named-points :
      (sides : List (TargetSide F)) → all p (needed sides) ≡ true → All Named (points_of sides)
  Named-points [] h = tt
  Named-points (side ∷ sides) h =
      let (here, there) = all_append p (needed_of side.points) (needed sides) h in
      Named-side side side.points (points_of sides) here (Named-points sides there)

module _ {F : Type 0} where
  check_produces_head :
      (need : List String) (name : String) (s : SourceSide F) (rest : List (String × SourceSide F))
      → check_produces need ((name, s) ∷ rest) ≡ ok tt
      → all (λ k. mem k (produced s)) need ≡ true
  check_produces_head need name s rest h = ground arith

module _ {F : Type 0} ⦃fl : Floats F⦄ (laws : FloatLaws fl)
    (zero_in : out_of_range (of_nat {F = F} 0) ≡ false) where
  produced_key :
      (source : SourceSide F) (sample : Values F) (k : String)
      → source.derive ≡ []
      → Accepted zero_in source sample
      → mem k (produced source) ≡ true
      → contains k sample ≡ true
  produced_key source sample k none_derived acc h =
      acc.0 k
      ∙ ground (
        arith,
        mem-append k (keys source.points) (derive_targets source.derive ++ derived_canonical_keys),
        mem-append k (derive_targets source.derive) derived_canonical_keys,
        ap (λ ops. mem k (derive_targets ops)) none_derived,
      )

  -- If zero counts as in range: with a register map that passes its load-time check, and whose ND45
  -- section has no derive steps, a sample that a poll of the ND45 returns has a value for every
  -- point of the output maps: the datastore update never raises `KeyError`.
  pub nd45_sample_complete :
      {S : Type 0} ⦃ds : Datastore S⦄ (m : RegisterMap F) (client : Client) (unit_id : ℕ)
      (seen : Seen) {sample : Values F} (s : S) (ct_ratio : F)
      → check_every_source_produces m ≡ ok tt
      → m.nd45_source.derive ≡ []
      → (poll_once client m.nd45_source unit_id seen).0 ≡ ok sample
      → (update_datastore s sample (targets m) ct_ratio).0 ≢ err key_error
  unfolding check_every_source_produces
  nd45_sample_complete m client unit_id seen {sample} s ct_ratio checked none_derived polled =
      let acc = poll_once-Accepted zero_in client m.nd45_source unit_id seen polled in
      update_datastore_complete laws sample ct_ratio s (targets m) (
        All-imp _ _ (points_of (targets m))
          (λ round. produced_key m.nd45_source sample round.1.from_ none_derived acc)
          (Named-points (λ k. mem k (produced m.nd45_source)) (targets m)
            (check_produces_head (needed (targets m)) "nd45_source" m.nd45_source _ checked)))

module _ {F : Type 0} (need : List String) where
  -- The check of a map holds for each of its sources.
  check_produces_found :
      (name : String) (srcs : List (String × SourceSide F)) {source : SourceSide F}
      → check_produces need srcs ≡ ok tt
      → lookup name srcs ≡ some source
      → all (λ k. mem k (produced source)) need ≡ true
  check_produces_found name [] h found = absurd (ground arith)
  check_produces_found name ((n, s) ∷ rest) {source} h found = elim (Bool-cases (name == n)) [
    | inl same ↦
        let e : s ≡ source = ground arith in
        subst (λ t. all (λ k. mem k (produced t)) need ≡ true) e
          (check_produces_head need n s rest h)
    | inr other ↦ check_produces_found name rest {source = source} (ground arith) (ground arith)
  ]

module _ {F : Type 0} ⦃fl : Floats F⦄ (laws : FloatLaws fl) where
  Scrubbed-key :
      (source : SourceSide F) (sample : Values F) (k : String)
      → Scrubbed source sample
      → mem k (produced source) ≡ true
      → contains k sample ≡ true
  Scrubbed-key source sample k acc h =
      acc.0 k
      ∙ ground (
        arith,
        mem-append k (keys source.points) (derive_targets source.derive ++ derived_canonical_keys),
        mem-append k (derive_targets source.derive) derived_canonical_keys,
      )

  -- With a register map that passes its load-time check, a sample that a poll of one of its sources
  -- as a SmartLogger returns, the steps of the source being well-formed, has a value for every point
  -- of the output maps: the datastore update never raises `KeyError`.
  pub huawei_sample_complete :
      {S : Type 0} ⦃ds : Datastore S⦄ (m : RegisterMap F) (name : String) {source : SourceSide F}
      (client : Client) (unit_id : ℕ) (seen : Seen) {sample : Values F} (s : S) (ct_ratio : F)
      → check_every_source_produces m ≡ ok tt
      → source_by_name m name ≡ ok source
      → All (λ o. check_arity o ≡ ok tt) source.derive
      → (Huawei.poll_once client source unit_id seen).0 ≡ ok sample
      → (update_datastore s sample (targets m) ct_ratio).0 ≢ err key_error
  unfolding check_every_source_produces source_by_name
  huawei_sample_complete m name {source} client unit_id seen {sample} s ct_ratio checked found arity
        polled =
      let acc = huawei_poll-Scrubbed laws client source unit_id seen arity polled in
      let there : lookup name (sources m) ≡ some source = ground arith in
      update_datastore_complete laws sample ct_ratio s (targets m) (
        All-imp _ _ (points_of (targets m)) (λ round. Scrubbed-key source sample round.1.from_ acc)
          (Named-points (λ k. mem k (produced source)) (targets m)
            (check_produces_found (needed (targets m)) name (sources m) checked there)))
