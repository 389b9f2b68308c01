-- ===== src/Pollers/Etango/Strict.antt =====
-- etango_poller.py: which readings a sample stands for.
use mathlib.Core.Path.{subst}
use nd45_dtsu666_converter.Registers.{SourceSide}
use nd45_dtsu666_converter.Canonical.{Values, apply_derive}
use nd45_dtsu666_converter.Base.{
  false, Bool, ◌↔◌, ◌∙◌, ap, sym, refl, if◌then◌else◌, err, ok, arith, ◌∷◌, [], List, true, inr,
  inl, ◌≡◌, Result, Result-cases, map_ok, ◌>>◌, values, All, Floats, string_eq, nat_eq, ◌>>=◌,
}
use nd45_dtsu666_converter.Pollers.Etango.{
  read_groups, decode_source, poll_once, aggregating, check_finite, device_values, DeviceLink,
}

-- The controllers that aggregate.
abbrev pub contributing : List DeviceLink → List DeviceLink
contributing [] = []
contributing (link ∷ links) =
    let rest = contributing links in if link.aggregate then link ∷ rest else rest

module _ {F : Type 0} ⦃fl : Floats F⦄ where
  abbrev pub Finite : F → Type 0
  Finite v = fl.is_finite v ≡ true

  check_finite-All : (vs : List F) → check_finite vs ≡ ok tt → All Finite vs
  check_finite-All [] h = tt
  check_finite-All (v ∷ vs) h = (ground arith, check_finite-All vs (ground arith))

  -- The readings of the controllers, one by one: each was read, and is finite.
  abbrev pub ReadAll : SourceSide F → List DeviceLink → List (Values F) → Type 0
  ReadAll source [] [] = Unit
  ReadAll source (link ∷ links) (vs ∷ per_device) =
      ((device_values source link ≡ ok vs) × All Finite (values vs))
      × ReadAll source links per_device
  ReadAll source _ _ = ⊥

  Finite-of_checked :
      (m : Result (Values F)) {vs : Values F}
      → (m >>= λ d. check_finite (values d) >> ok d) ≡ ok vs
      → All Finite (values vs)
  Finite-of_checked (err x) h = absurd (ground arith)
  Finite-of_checked (ok d) {vs} h = elim (Result-cases (check_finite (values d))) [
    | inr (x, e) ↦ absurd (ground arith)
    | inl (_, e) ↦
        let same : d ≡ vs = ground arith in
        subst (λ w. All Finite (values w)) same (check_finite-All (values d) e)
  ]

  device_values-Finite :
      (source : SourceSide F) (link : DeviceLink) {vs : Values F}
      → device_values source link ≡ ok vs
      → All Finite (values vs)
  unfolding device_values
  device_values-Finite source link h =
      elim (Result-cases (read_groups link.client source link.unit_id)) [
        | inr (x, e) ↦ absurd (ground arith)
        | inl (groups, e) ↦ elim (Result-cases (decode_source source groups)) [
          | inr (x, e') ↦ absurd (ground arith)
          | inl (decoded, e') ↦
              Finite-of_checked (apply_derive decoded source.derive) (ground arith)
        ]
      ]

  map_ok-ReadAll :
      (source : SourceSide F) (links : List DeviceLink) {per_device : List (Values F)}
      → map_ok (device_values source) links ≡ ok per_device
      → ReadAll source links per_device
  map_ok-ReadAll source [] h = subst (ReadAll source []) (ok_injective h) tt
    where
      ok_injective : {A : Type 0} {a b : A} → ok a ≡ ok b → a ≡ b
      ok_injective e = cc
  map_ok-ReadAll source (link ∷ links) {per_device} h =
      elim (Result-cases (device_values source link)) [
        | inr (x, e) ↦ absurd (ground arith)
        | inl (vs, e) ↦ elim (Result-cases (map_ok (device_values source) links)) [
          | inr (x, e') ↦ absurd (ground arith)
          | inl (rest, e') ↦
              let same : vs ∷ rest ≡ per_device = ground arith in
              subst (ReadAll source (link ∷ links)) same
                ((e, device_values-Finite source link e), map_ok-ReadAll source links e')
        ]
      ]

  ReadAll-map_ok :
      (source : SourceSide F) (links : List DeviceLink) (per_device : List (Values F))
      → ReadAll source links per_device
      → map_ok (device_values source) links ≡ ok per_device
  ReadAll-map_ok source [] [] h = refl
  ReadAll-map_ok source (link ∷ links) (vs ∷ per_device) h =
      rw h.0.0 (rw (ReadAll-map_ok source links per_device h.1) refl)
  ReadAll-map_ok source [] (vs ∷ per_device) h = absurd h
  ReadAll-map_ok source (link ∷ links) [] h = absurd h

  -- The readings that aggregate are those of the controllers that aggregate, polled alone.
  aggregating-ReadAll :
      (source : SourceSide F) (links : List DeviceLink) (per_device : List (Values F))
      → ReadAll source links per_device
      → ReadAll source (contributing links) (aggregating per_device links)
  aggregating-ReadAll source [] [] h = tt
  aggregating-ReadAll source (link ∷ links) (vs ∷ per_device) h =
      by_flag link.aggregate (aggregating-ReadAll source links per_device h.1)
    where
      by_flag :
          (counts : Bool)
          → ReadAll source (contributing links) (aggregating per_device links)
          → ReadAll source
              (if counts then link ∷ contributing links else contributing links)
              (if counts then vs ∷ aggregating per_device links else aggregating per_device links)
      by_flag true rest = (h.0, rest)
      by_flag false rest = rest
  aggregating-ReadAll source [] (vs ∷ per_device) h = absurd h
  aggregating-ReadAll source (link ∷ links) [] h = absurd h

  -- Of the controllers that aggregate, every one does.
  aggregating-contributing :
      (source : SourceSide F) (links : List DeviceLink) (per_device : List (Values F))
      → ReadAll source links per_device
      → aggregating (aggregating per_device links) (contributing links)
        ≡ aggregating per_device links
  aggregating-contributing source [] [] h = refl
  aggregating-contributing source (link ∷ links) (vs ∷ per_device) h =
      by_flag link.aggregate refl (aggregating-contributing source links per_device h.1)
    where
      kept : List (Values F)
      kept = aggregating per_device links

      by_flag :
          (counts : Bool)
          → link.aggregate ≡ counts
          → aggregating kept (contributing links) ≡ kept
          → aggregating
              (if counts then vs ∷ kept else kept)
              (if counts then link ∷ contributing links else contributing links)
            ≡ (if counts then vs ∷ kept else kept)
      by_flag true e rest =
          ap
            (λ b. let more = aggregating kept (contributing links) in if b then vs ∷ more else more)
            e
          ∙ ap (λ vss. vs ∷ vss) rest
      by_flag false e rest = rest
  aggregating-contributing source [] (vs ∷ per_device) h = absurd h
  aggregating-contributing source (link ∷ links) [] h = absurd h

  -- Once every controller is read, a poll is that of the contributing controllers alone.
  poll_once-contributing :
      (devices : List DeviceLink) (source : SourceSide F) (per_device : List (Values F))
      → ReadAll source devices per_device
      → poll_once devices source ≡ poll_once (contributing devices) source
  unfolding poll_once
  poll_once-contributing devices source per_device h =
      let all_read = ReadAll-map_ok source devices per_device h in
      let alone =
        ReadAll-map_ok source (contributing devices) (aggregating per_device devices)
          (aggregating-ReadAll source devices per_device h) in
      ground (arith, aggregating-contributing source devices per_device h)

  -- A poll returns a sample if and only if every configured controller is read with finite values
  -- only, the ones that do not aggregate included, and a poll of the aggregating controllers alone
  -- returns the same sample.
  pub etango_poll_strict :
      (devices : List DeviceLink) (source : SourceSide F) (taken : Values F)
      → (poll_once devices source ≡ ok taken) ↔ (
          ((per_device : List (Values F)) × ReadAll source devices per_device)
          × (poll_once (contributing devices) source ≡ ok taken))
  unfolding poll_once
  etango_poll_strict devices source taken = (polled, strict)
    where
      polled :
          poll_once devices source ≡ ok taken
          → ((per_device : List (Values F)) × ReadAll source devices per_device)
            × (poll_once (contributing devices) source ≡ ok taken)
      polled h = elim (Result-cases (map_ok (device_values source) devices)) [
        | inr (x, e) ↦ absurd (ground arith)
        | inl (per_device, e) ↦
            let all_read = map_ok-ReadAll source devices e in
            (
              (per_device, all_read),
              sym (poll_once-contributing devices source per_device all_read) ∙ h,
            )
      ]

      strict :
          ((per_device : List (Values F)) × ReadAll source devices per_device)
            × (poll_once (contributing devices) source ≡ ok taken)
          → poll_once devices source ≡ ok taken
      strict ((per_device, all_read), alone) =
          poll_once-contributing devices source per_device all_read ∙ alone
