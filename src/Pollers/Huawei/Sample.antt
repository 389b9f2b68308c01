-- ===== src/Pollers/Huawei/Sample.antt =====
-- huawei_poller.py: what a sample of the SmartLogger holds.
use mathlib.Core.Path.{subst}
use nd45_dtsu666_converter.Canonical.Derive.{apply_derive-Adds}
use nd45_dtsu666_converter.Pollers.Nd45.Sample.{compute_derived_keys}
use nd45_dtsu666_converter.Registers.Map.{derived_canonical_keys, derive_targets}
use nd45_dtsu666_converter.Registers.{SourceSide, check_arity, SourcePoint}
use nd45_dtsu666_converter.Pollers.{registers_of, Seen, Groups, Client}
use nd45_dtsu666_converter.Canonical.{compute_derived, Values, apply_derive}
use nd45_dtsu666_converter.Base.{
  Option, if◌then◌else◌, err, ok, arith, ◌∷◌, [], List, some, none, ◌||◌, true, inr, inl, ◌∙◌, ap,
  sym, refl, ◌≡◌, String, Result, Result-cases, contains-insert_eq, contains-insert, lookup-insert,
  insert, contains, lookup, keys, mem, Dict, All-imp, All, FloatLaws, Floats, of_nat, Bool-cases, ℕ,
  string_eq, nat_eq, ◌>>=◌, ◌==◌,
}
use nd45_dtsu666_converter.Pollers.Huawei.{
  note_items, scrub, decode_from, derive_sample, after_decode, poll_once, read_groups,
  decode_source, Noted, note_item, decode_value,
}

module _ {F : Type 0} ⦃fl : Floats F⦄ (k : String) where
  -- The first loop writes what the second would.
  note_items-scrub :
      (items : List (String × F)) (n : Noted F)
      → (note_items items n).values_ ≡ scrub items n.values_
  unfolding note_items scrub
  note_items-scrub [] n = refl
  note_items-scrub ((key, value) ∷ items) n =
      let once : (note_item key value n).values_
          ≡ (if fl.is_finite value then n.values_ else insert key (of_nat 0) n.values_) =
        ground arith in
      note_items-scrub items (note_item key value n) ∙ ap (scrub items) once

  -- Every item's key is present.
  abbrev AllPresent : Values F → List (String × F) → Type 0
  AllPresent vs items = All (λ i. contains i.0 vs ≡ true) items

  scrub_keys :
      (items : List (String × F)) (vs : Values F)
      → AllPresent vs items
      → contains k (scrub items vs) ≡ contains k vs
  unfolding scrub
  scrub_keys [] vs h = refl
  scrub_keys ((key, value) ∷ items) vs h = elim (Bool-cases (fl.is_finite value)) [
    | inl good ↦ rw good (scrub_keys items vs h.1)
    | inr bad ↦
        let next = insert key (of_nat 0) vs in
        let kept =
          All-imp (λ i. contains i.0 vs ≡ true) (λ i. contains i.0 next ≡ true) items
            (λ i p. contains-insert i.0 key (of_nat 0) vs p) h.1 in
        rw bad (
          scrub_keys items next kept
          ∙ ground (arith, contains-insert_eq k key (of_nat 0) vs, string_eq.beq_iff k key, h.0))
  ]

  decode_from-keys :
      (source : SourceSide F) (groups : Groups) (pts : Dict String (SourcePoint F)) (vs : Values F)
      {r : Values F}
      → decode_from source groups pts vs ≡ ok r
      → contains k r ≡ (mem k (keys pts) || contains k vs)
  unfolding decode_from
  decode_from-keys source groups [] vs h = ground arith
  decode_from-keys source groups ((key, pt) ∷ rest) vs h =
      elim (Result-cases (registers_of pt groups >>= decode_value source pt)) [
        | inr (x, e) ↦ absurd (ground arith)
        | inl (v, e) ↦
            decode_from-keys source groups rest (insert key v vs) (rw e at h)
            ∙ ground (arith, contains-insert_eq k key v vs)
      ]

module _ {F : Type 0} ⦃fl : Floats F⦄ where
  -- The items of a dict are present in it.
  items_present : (vs : Values F) → AllPresent "" vs vs
  items_present vs = present_in vs vs (λ k h. h)
    where
      present_in :
          (more items : Values F)
          → ((k : String) → contains k items ≡ true → contains k more ≡ true)
          → AllPresent "" more items
      present_in more [] f = tt
      present_in more ((key, value) ∷ items) f = (
        f key (ground (arith, string_eq.beq_iff key key)),
        present_in more items (λ k h. f k (ground arith)),
      )

module _ {F : Type 0} ⦃fl : Floats F⦄ where
  abbrev pub FiniteIf : Option F → Type 0
  FiniteIf none = Unit
  FiniteIf (some v) = fl.is_finite v ≡ true

  -- A value that is present is finite.
  abbrev pub FiniteAt : String → Values F → Type 0
  FiniteAt k vs = FiniteIf (lookup k vs)

  -- The sample of an accepted poll: its points, and the finiteness of all but the energy aliases.
  abbrev pub Scrubbed : SourceSide F → Values F → Type 0
  Scrubbed source sample =
      ((k : String)
        → contains k sample ≡ (
            mem k derived_canonical_keys
            || (mem k (derive_targets source.derive) || mem k (keys source.points))))
      × ((measured : Values F) × (sample ≡ compute_derived measured)
          × ((k : String) → FiniteAt k measured))

module _ {F : Type 0} ⦃fl : Floats F⦄ (laws : FloatLaws fl) (k : String) where
  finite_of_insert :
      (key : String) (vs : Values F) → FiniteAt k vs → FiniteAt k (insert key (of_nat 0) vs)
  finite_of_insert key vs h = elim (Bool-cases (k == key)) [
    | inl same ↦
        let e : lookup k (insert key (of_nat 0) vs) ≡ some (of_nat 0) =
          ground (arith, lookup-insert k key (of_nat 0) vs) in
        subst FiniteIf (sym e) laws.zero-finite
    | inr other ↦
        let e : lookup k (insert key (of_nat 0) vs) ≡ lookup k vs =
          ground (arith, lookup-insert k key (of_nat 0) vs) in
        subst FiniteIf (sym e) h
  ]

  scrub_keeps :
      (items : List (String × F)) (vs : Values F) → FiniteAt k vs → FiniteAt k (scrub items vs)
  unfolding scrub
  scrub_keeps [] vs h = h
  scrub_keeps ((key, value) ∷ items) vs h = elim (Bool-cases (fl.is_finite value)) [
    | inl good ↦ rw good (scrub_keeps items vs h)
    | inr bad ↦ rw bad (scrub_keeps items (insert key (of_nat 0) vs) (finite_of_insert key vs h))
  ]

  scrub_finite :
      (items : List (String × F)) (vs : Values F)
      → lookup k items ≡ lookup k vs
      → FiniteAt k (scrub items vs)
  unfolding scrub
  scrub_finite [] vs h = subst FiniteIf h tt
  scrub_finite ((key, value) ∷ items) vs h = elim (Bool-cases (k == key)) [
    | inl same ↦ elim (Bool-cases (fl.is_finite value)) [
      | inl good ↦
          let e : lookup k vs ≡ some value = ground arith in
          rw good (scrub_keeps items vs (subst FiniteIf (sym e) good))
      | inr bad ↦
          let e : lookup k (insert key (of_nat 0) vs) ≡ some (of_nat 0) =
            ground (arith, lookup-insert k key (of_nat 0) vs) in
          rw bad
            (scrub_keeps items (insert key (of_nat 0) vs) (subst FiniteIf (sym e) laws.zero-finite))
    ]
    | inr other ↦ elim (Bool-cases (fl.is_finite value)) [
      | inl good ↦ rw good (scrub_finite items vs (ground arith))
      | inr bad ↦ rw bad (
          scrub_finite items (insert key (of_nat 0) vs)
            (ground (arith, lookup-insert k key (of_nat 0) vs)))
    ]
  ]

module _ {F : Type 0} ⦃fl : Floats F⦄ (laws : FloatLaws fl) where
  derive_sample-Scrubbed :
      (source : SourceSide F) (vs : Values F) {sample : Values F}
      → All (λ o. check_arity o ≡ ok tt) source.derive
      → ((k : String) → contains k vs ≡ mem k (keys source.points))
      → derive_sample source vs ≡ ok sample
      → Scrubbed source sample
  derive_sample-Scrubbed source vs arity points h =
      elim (Result-cases (apply_derive vs source.derive)) [
        | inr (x, e) ↦ absurd (ground arith)
        | inl (d, e) ↦
            let same : compute_derived (scrub d d) ≡ _ = ground arith in
            (
              λ k.
                  ap (contains k) (sym same)
                  ∙ compute_derived_keys k (scrub d d)
                  ∙ ap (λ b. mem k derived_canonical_keys || b)
                      (scrub_keys k d d (items_present d)
                        ∙ (rw e at (apply_derive-Adds k source.derive vs arity)).0
                        ∙ ap (λ b. mem k (derive_targets source.derive) || b) (points k)),
              (scrub d d, sym same, λ k. scrub_finite laws k d d refl),
            )
      ]

  after_decode-Scrubbed :
      (source : SourceSide F) (seen : Seen) (r : Result (Values F)) {sample : Values F}
      → All (λ o. check_arity o ≡ ok tt) source.derive
      → ((vs : Values F) → r ≡ ok vs → (k : String) → contains k vs ≡ mem k (keys source.points))
      → (after_decode source seen r).0 ≡ ok sample
      → Scrubbed source sample
  after_decode-Scrubbed source seen (err x) arity points h = absurd (ground arith)
  after_decode-Scrubbed source seen (ok vs) arity points h =
      let n = note_items vs (record { values_ = vs; seen = seen; lines = [] }) in
      derive_sample-Scrubbed source n.values_ arity
        (λ k.
          ap (contains k) (note_items-scrub k vs _)
          ∙ scrub_keys k vs vs (items_present vs)
          ∙ points vs refl k)
        h

  decoded_keys :
      (source : SourceSide F) (r : Result Groups) (vs : Values F)
      → (r >>= decode_source source) ≡ ok vs
      → (k : String) → contains k vs ≡ mem k (keys source.points)
  unfolding decode_source
  decoded_keys source (err x) vs h k = absurd (ground arith)
  decoded_keys source (ok groups) vs h k =
      decode_from-keys k source groups source.points [] h ∙ ground arith

  -- Where the derive steps of the source are well-formed, a sample that a poll returns holds exactly
  -- the points of the source, the targets of its derive steps and the three energy aliases, and it
  -- is the energy derivation of values that are all finite.
  pub huawei_poll-Scrubbed :
      (client : Client) (source : SourceSide F) (slave : ℕ) (seen : Seen) {sample : Values F}
      → All (λ o. check_arity o ≡ ok tt) source.derive
      → (poll_once client source slave seen).0 ≡ ok sample
      → Scrubbed source sample
  unfolding poll_once
  huawei_poll-Scrubbed client source slave seen arity h =
      after_decode-Scrubbed source seen (read_groups client source slave >>= decode_source source)
        arity (decoded_keys source (read_groups client source slave)) h
