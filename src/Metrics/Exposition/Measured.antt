-- ===== src/Metrics/Exposition/Measured.antt =====
-- metrics.py: the calls for canonical values and for registers, which are encoded once more.
use nd45_dtsu666_converter.Server.Encode.Update.{encode_target_point-length}
use nd45_dtsu666_converter.Codec.Points.{encode_point_raises}
use nd45_dtsu666_converter.Metrics.Exposition.Families.{IsClean}
use nd45_dtsu666_converter.Registers.Map.{targets}
use nd45_dtsu666_converter.Canonical.{Values}
use nd45_dtsu666_converter.Metrics.Exposition.{Sampled-append, Sampled}
use nd45_dtsu666_converter.Metrics.Readings.{
  register_part, canonical_part, value_samples, point_labels, side_calls, sorted_values,
  point_calls, sorted_points, encoded_calls, read_age_calls, register_calls,
}
use nd45_dtsu666_converter.Server.Encode.{ct_divided, encode_target_point}
use nd45_dtsu666_converter.Server.Activity.{RtuActivity}
use nd45_dtsu666_converter.Registers.{TargetSide, TargetPoint}
use nd45_dtsu666_converter.Codec.{registers_to_float}
use nd45_dtsu666_converter.Metrics.{BridgeMetrics, Labels}
use nd45_dtsu666_converter.Base.{
  inr, inl, Exc, Result-cases, length, FloatLaws, of_nat, arith, ◌++◌, ◌∷◌, [], false, Bool, refl,
  lookup, Dict, value_error, err, ok, List, some, none, Option, true, ◌≡◌, String, Result, mem,
  Floats, string_eq, nat_eq, ℕ,
}

module _ {F : Type 0} ⦃fl : Floats F⦄ where
  -- Two registers are a float32.
  registers_to_float-two :
      (regs : List ℕ) (wo bo : String)
      → length regs ≡ 2
      → (v : F) × (registers_to_float regs wo bo ≡ ok v)
  unfolding registers_to_float
  registers_to_float-two (a ∷ b ∷ _) wo bo h = (_, refl)
  registers_to_float-two [] wo bo h = absurd (cc)
  registers_to_float-two (_ ∷ []) wo bo h = absurd (cc)

module _ {F : Type 0} ⦃fl : Floats F⦄ (laws : FloatLaws fl)
    (eq_le : (x : F) → fl.eq x (of_nat 0) ≡ true → fl.le x (of_nat 0) ≡ true) where
  ct_divided_raises :
      (si : F) (divide : Bool) (ct_ratio : F) {x : Exc}
      → ct_divided si divide ct_ratio ≡ err x
      → x ≡ value_error
  ct_divided_raises si false ct_ratio h = absurd (cc)
  ct_divided_raises si true ct_ratio h = ground (arith, eq_le ct_ratio)

  encode_target_point_value_error :
      (si : F) (pt : TargetPoint F) (side : TargetSide F) (ct_ratio : F) {x : Exc}
      → encode_target_point si pt side ct_ratio ≡ err x
      → x ≡ value_error
  unfolding encode_target_point
  encode_target_point_value_error si pt side ct_ratio h =
      elim (Result-cases (ct_divided si pt.divide_by_ct ct_ratio)) [
        | inl (v, fine) ↦
            encode_point_raises laws v pt.scale pt.sign pt.offset side.word_order side.byte_order
              pt.zero_low_word (rw fine at h)
        | inr (e, bad) ↦ ground (arith, ct_divided_raises si pt.divide_by_ct ct_ratio bad)
      ]

  encoded_calls-Sampled :
      (seen : List String) (name : String) (si : F) (pt : TargetPoint F) (side : TargetSide F)
      (ct_ratio : F) (labels : Labels)
      → mem name seen ≡ true
      → Sampled seen (encoded_calls name side labels (encode_target_point si pt side ct_ratio))
  encoded_calls-Sampled seen name si pt side ct_ratio labels h =
      go (encode_target_point si pt side ct_ratio) refl
    where
      go :
          (r : Result (List ℕ))
          → encode_target_point si pt side ct_ratio ≡ r
          → Sampled seen (encoded_calls name side labels r)
      go (ok regs) e =
          let (v, decoded) =
            registers_to_float-two {F = F} regs side.word_order side.byte_order
              (encode_target_point-length laws si pt side ct_ratio e) in
          rw decoded (h, tt)
      go (err value_error) e = tt
      go (err x) e =
          let only : x ≡ value_error = encode_target_point_value_error si pt side ct_ratio e in
          absurd (cc)

  register_calls-Sampled :
      (seen : List String) (name : String) (si : Option F) (pt : TargetPoint F)
      (side : TargetSide F) (ct_ratio : F) (labels : Labels)
      → mem name seen ≡ true
      → Sampled seen (register_calls name si pt side ct_ratio labels)
  register_calls-Sampled seen name none pt side ct_ratio labels h = tt
  register_calls-Sampled seen name (some si) pt side ct_ratio labels h =
      encoded_calls-Sampled seen name si pt side ct_ratio labels h

  read_age_calls-Sampled :
      (seen : List String) (name : String) (activity : Option RtuActivity) (side : TargetSide F)
      (pt : TargetPoint F) (labels : Labels) (now : ℕ)
      → mem name seen ≡ true
      → Sampled {F = F} seen (read_age_calls name activity side pt labels now)
  read_age_calls-Sampled seen name none side pt labels now h = tt
  read_age_calls-Sampled seen name (some a) side pt labels now h = (h, tt)

  module _ (seen : List String) (ages images : String) (known : mem ages seen ≡ true)
      (given : mem images seen ≡ true) (b : BridgeMetrics F) (vs : Values F) (label : Labels)
      (now : ℕ) where
    point_calls-Sampled :
        (map_name : String) (side : TargetSide F) (points : Dict String (TargetPoint F))
        → Sampled seen (point_calls ages images b vs label now map_name side points)
    point_calls-Sampled map_name side [] = tt
    point_calls-Sampled map_name side ((point_name, pt) ∷ rest) =
        let labels = point_labels label map_name side point_name pt in
        let age = read_age_calls ages b.activity side pt labels now in
        let image = register_calls images (lookup pt.from_ vs) pt side b.spec.ct_ratio labels in
        Sampled-append seen (age ++ image)
          (point_calls ages images b vs label now map_name side rest)
          (Sampled-append seen age image
            (read_age_calls-Sampled seen ages b.activity side pt labels now known)
            (register_calls-Sampled seen images (lookup pt.from_ vs) pt side b.spec.ct_ratio labels
              given))
          (point_calls-Sampled map_name side rest)

    side_calls-Sampled :
        (targets : List (String × TargetSide F))
        → Sampled seen (side_calls ages images b vs label now targets)
    side_calls-Sampled [] = tt
    side_calls-Sampled ((map_name, side) ∷ rest) =
        Sampled-append seen
          (point_calls ages images b vs label now map_name side (sorted_points side.points))
          (side_calls ages images b vs label now rest)
          (point_calls-Sampled map_name side (sorted_points side.points)) (side_calls-Sampled rest)

  value_samples-Sampled :
      (seen : List String) (name : String) (label : Labels) (vs : Values F)
      → mem name seen ≡ true
      → Sampled seen (value_samples name label vs)
  value_samples-Sampled seen name label [] h = tt
  value_samples-Sampled seen name label ((k, v) ∷ rest) h =
      (h, value_samples-Sampled seen name label rest h)

  pub canonical_part-IsClean :
      (name : String) (label : Labels) (vs : Values F) → IsClean (canonical_part name label vs)
  unfolding canonical_part
  canonical_part-IsClean name label vs = record {
    sampled =
        value_samples-Sampled (name ∷ []) name label (sorted_values vs)
          (ground (arith, string_eq.beq_iff name name));
  }

  pub register_part-IsClean :
      (ages images : String) (b : BridgeMetrics F) (label : Labels) (now : ℕ)
      (targets : List (String × TargetSide F))
      → IsClean (register_part ages images b label now targets)
  unfolding register_part
  register_part-IsClean ages images b label now targets = record {
    sampled =
        side_calls-Sampled (ages ∷ images ∷ []) ages images
          (ground (arith, string_eq.beq_iff ages ages))
          (ground (arith, string_eq.beq_iff images images)) b b.store.values_ label now targets;
  }
