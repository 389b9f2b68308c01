-- ===== src/Pollers/Nd45/Sample.antt =====
-- nd45_poller.py: what a sample that is not rejected holds.
use nd45_dtsu666_converter.Pollers.Nd45.{
  read_groups, Decoding, optional_invalid_zero_points, decode_points, conclude, fresh_decoding,
  Reading, after_read, read_point, is_invalid, poll_once, read_blocks, note_reading, out_of_range,
}
use nd45_dtsu666_converter.Registers.Map.{derived_canonical_keys}
use nd45_dtsu666_converter.Registers.{SourceSide, SourcePoint}
use nd45_dtsu666_converter.Pollers.{Client, Groups, Seen}
use nd45_dtsu666_converter.Base.{
  err, ok, arith, ◌++◌, ◌∷◌, [], List, ◌||◌, false, inr, inl, ◌∙◌, ap, refl, ◌≡◌, String, Result,
  Result-cases, All-insert, contains-insert_eq, insert, contains, values, keys, mem, Dict, All,
  Floats, of_nat, Bool-cases, string_eq, nat_eq, ◌==◌, ℕ,
}
use nd45_dtsu666_converter.Canonical.{get_zero, Values, compute_derived}

module _ {F : Type 0} ⦃fl : Floats F⦄ where
  -- A value in the measuring range.
  abbrev pub InBounds : F → Type 0
  InBounds v = out_of_range v ≡ false

  -- While no critical point was bad, every stored value is in range.
  abbrev Sound : Decoding F → Type 0
  Sound d = d.invalid_critical ≡ [] → All InBounds (values d.values_)

module _ {F : Type 0} ⦃fl : Floats F⦄ (zero_in : out_of_range (of_nat {F = F} 0) ≡ false) where
  note_reading-Sound :
      (key : String) (r : Reading F) (d : Decoding F) → Sound d → Sound (note_reading key r d)
  unfolding note_reading
  note_reading-Sound key r d h = elim (Bool-cases (is_invalid r)) [
    | inr good ↦
        rw (good, Sound)
          (λ none_bad. All-insert InBounds key r.si d.values_ (h none_bad) (ground arith))
    | inl bad ↦ elim (Bool-cases (mem key optional_invalid_zero_points)) [
      | inl optional ↦
          rw (bad, optional, Sound)
            (λ none_bad. All-insert InBounds key (of_nat 0) d.values_ (h none_bad) zero_in)
      | inr critical ↦
          rw (bad, critical, Sound) (λ none_bad. absurd (not_empty d.invalid_critical none_bad))
    ]
  ]
    where
      not_empty : (xs : List String) → xs ++ key ∷ [] ≡ [] → ⊥
      not_empty [] e = cc
      not_empty (x ∷ xs) e = cc

  decode_points-Sound :
      (source : SourceSide F) (groups : Groups) (pts : Dict String (SourcePoint F)) (d : Decoding F)
      → Sound d
      → (decode_points source groups pts d).0 ≡ ok tt
      → Sound (decode_points source groups pts d).1
  unfolding decode_points
  decode_points-Sound source groups [] d h done = h
  decode_points-Sound source groups ((key, pt) ∷ rest) d h done =
      elim (Result-cases (read_point source groups pt)) [
        | inr (x, e) ↦ absurd (ground arith)
        | inl (r, e) ↦
            rw (e, decode_points)
              (decode_points-Sound source groups rest (note_reading key r d)
                (note_reading-Sound key r d h) (rw (e, decode_points) at done))
      ]

-- The points that the loop stores: those of the source, beside what was there.
module _ {F : Type 0} ⦃fl : Floats F⦄ (k : String) where
  note_reading_keys :
      (key : String) (r : Reading F) (d : Decoding F)
      → contains k (note_reading key r d).values_ ≡ (k == key || contains k d.values_)
  unfolding note_reading
  note_reading_keys key r d = ground (
    arith,
    contains-insert_eq k key r.si d.values_,
    contains-insert_eq k key (of_nat 0) d.values_,
  )

  decode_points-keys :
      (source : SourceSide F) (groups : Groups) (pts : Dict String (SourcePoint F)) (d : Decoding F)
      → (decode_points source groups pts d).0 ≡ ok tt
      → contains k (decode_points source groups pts d).1.values_
        ≡ (mem k (keys pts) || contains k d.values_)
  unfolding decode_points
  decode_points-keys source groups [] d done = refl
  decode_points-keys source groups ((key, pt) ∷ rest) d done =
      elim (Result-cases (read_point source groups pt)) [
        | inr (x, e) ↦ absurd (ground arith)
        | inl (r, e) ↦
            rw (e, decode_points)
              (decode_points-keys source groups rest (note_reading key r d)
                  (rw (e, decode_points) at done)
                ∙ ground (arith, note_reading_keys key r d))
      ]

  -- The energy aliases join the points of any sample, and no other point does.
  pub compute_derived_keys :
      (vs : Values F)
      → contains k (compute_derived vs) ≡ (mem k derived_canonical_keys || contains k vs)
  unfolding compute_derived
  compute_derived_keys vs =
      let imp = get_zero vs "imp_energy_total" in
      let exp = get_zero vs "exp_energy_total" in
      let one = insert "active_energy_total" (fl.add imp exp) vs in
      let two = insert "net_imp_energy_total" imp one in
      ground (
        arith,
        contains-insert_eq k "active_energy_total" (fl.add imp exp) vs,
        contains-insert_eq k "net_imp_energy_total" imp one,
        contains-insert_eq k "net_exp_energy_total" exp two,
      )

module _ {F : Type 0} ⦃fl : Floats F⦄ (zero_in : out_of_range (of_nat {F = F} 0) ≡ false) where
  -- The sample of an accepted poll.
  abbrev pub Accepted : SourceSide F → Values F → Type 0
  Accepted source sample =
      ((k : String)
        → contains k sample ≡ (mem k derived_canonical_keys || mem k (keys source.points)))
      × ((measured : Values F) × (sample ≡ compute_derived measured)
          × All InBounds (values measured))

  conclude_accepted :
      (source : SourceSide F) (r : Result (Unit {0})) (d : Decoding F) {sample : Values F}
      → conclude r d ≡ ok sample
      → (r ≡ ok tt) × (d.invalid_critical ≡ []) × (sample ≡ compute_derived d.values_)
  conclude_accepted source r d h = ground arith

  after_read-Accepted :
      (source : SourceSide F) (seen : Seen) (r : Result Groups) {sample : Values F}
      → (after_read source seen r).0 ≡ ok sample
      → Accepted source sample
  after_read-Accepted source seen (err x) h = absurd (ground arith)
  after_read-Accepted source seen (ok groups) {sample} h =
      let run = decode_points source groups source.points (fresh_decoding seen) in
      let (done, critical, e) = conclude_accepted source run.0 run.1 h in
      (
        λ k.
            ap (contains k) e
            ∙ compute_derived_keys k run.1.values_
            ∙ ground (
              arith,
              decode_points-keys k source groups source.points (fresh_decoding seen) done,
            ),
        (
          run.1.values_,
          e,
          decode_points-Sound zero_in source groups source.points (fresh_decoding seen) (λ _. tt)
              done critical,
        ),
      )

  -- If zero counts as in range, a sample that a poll returns holds exactly the points of the source
  -- and the three energy aliases, and it is the energy derivation of values that are all finite and
  -- below the over-range threshold.
  pub poll_once-Accepted :
      (client : Client) (source : SourceSide F) (slave : ℕ) (seen : Seen) {sample : Values F}
      → (poll_once client source slave seen).0 ≡ ok sample
      → Accepted source sample
  unfolding poll_once
  poll_once-Accepted client source slave seen h =
      after_read-Accepted source seen (read_blocks client slave read_groups) h
