-- ===== src/Server/Encode/Missing.antt =====
-- dtsu_server.py: when `update_datastore` refuses a sample.
use nd45_dtsu666_converter.Base.{
  key_error, err, ok, arith, ◌∷◌, [], List, false, true, Bool, inr, inl, ◌≢◌, refl, ◌≡◌, String,
  Result, Exc, Result-cases, ◌>>=◌, contains, lookup, All, FloatLaws, Floats, Option-cases,
  string_eq, nat_eq,
}
use nd45_dtsu666_converter.Registers.{TargetPoint, TargetSide}
use nd45_dtsu666_converter.Codec.Points.{encode_point_raises}
use nd45_dtsu666_converter.Canonical.{Values}
use nd45_dtsu666_converter.Datastore.{Datastore}
use nd45_dtsu666_converter.Server.Encode.{
  Write, encode_target_point, ct_divided, gather, complete, pending_writes, points_of,
  update_datastore, commit,
}

module _ {F : Type 0} ⦃fl : Floats F⦄ (canonical : Values F) where
  abbrev pub Present : TargetSide F × TargetPoint F → Type 0
  Present (side, pt) = contains pt.from_ canonical ≡ true

module _ {F : Type 0} ⦃fl : Floats F⦄ (laws : FloatLaws fl) where
  ct_divided_raises :
      (si : F) (divide : Bool) (ct_ratio : F) {x : Exc}
      → ct_divided si divide ct_ratio ≡ err x
      → x ≢ key_error
  ct_divided_raises si false ct_ratio h = ground arith
  ct_divided_raises si true ct_ratio h = ground arith

  encode_target_point_raises :
      (si : F) (pt : TargetPoint F) (side : TargetSide F) (ct_ratio : F) {x : Exc}
      → encode_target_point si pt side ct_ratio ≡ err x
      → x ≢ key_error
  unfolding encode_target_point
  encode_target_point_raises si pt side ct_ratio h =
      elim (Result-cases (ct_divided si pt.divide_by_ct ct_ratio)) [
        | inr (y, e) ↦ ground (arith, ct_divided_raises si pt.divide_by_ct ct_ratio e)
        | inl (value, e) ↦
            let raised =
              encode_point_raises laws value pt.scale pt.sign pt.offset side.word_order
                side.byte_order pt.zero_low_word (rw e at h) in
            ground arith
      ]

module _ {F : Type 0} ⦃fl : Floats F⦄ (laws : FloatLaws fl) (canonical : Values F)
    (ct_ratio : F) where
  -- Nothing missing so far, and no `KeyError`.
  abbrev NoneMissing : Result (List Write × List String) → Type 0
  NoneMissing (ok (ws, missing)) = missing ≡ []
  NoneMissing (err x) = x ≢ key_error

  NoneMissing-cons :
      (w : Write) (r : Result (List Write × List String))
      → NoneMissing r
      → NoneMissing (r >>= λ later. ok (w ∷ later.0, later.1))
  NoneMissing-cons w (ok _) h = h
  NoneMissing-cons w (err x) h = h

  gather-NoneMissing :
      (rounds : List (TargetSide F × TargetPoint F))
      → All (Present canonical) rounds
      → NoneMissing (gather canonical ct_ratio rounds)
  gather-NoneMissing [] h = refl
  gather-NoneMissing ((side, pt) ∷ rest) h = elim (Option-cases (lookup pt.from_ canonical)) [
    | inl absent ↦ absurd (ground arith)
    | inr (si, found) ↦ elim (Result-cases (encode_target_point si pt side ct_ratio)) [
      | inr (x, bad) ↦
          rw (found, bad, NoneMissing) (encode_target_point_raises laws si pt side ct_ratio bad)
      | inl (regs, good) ↦
          rw (found, good, NoneMissing)
            (NoneMissing-cons _ (gather canonical ct_ratio rest) (gather-NoneMissing rest h.1))
    ]
  ]

  module _ {S : Type 0} ⦃ds : Datastore S⦄ where
    no_key_error :
        (s : S) (r : Result (List Write × List String))
        → NoneMissing r
        → (commit s (r >>= complete)).0 ≢ err key_error
    no_key_error s (ok (ws, missing)) h = ground arith
    no_key_error s (err x) h = ground arith

    -- A sample that has a value for every point of the maps is never refused as incomplete.
    pub update_datastore_complete :
        (s : S) (sides : List (TargetSide F))
        → All (Present canonical) (points_of sides)
        → (update_datastore s canonical sides ct_ratio).0 ≢ err key_error
    unfolding update_datastore pending_writes
    update_datastore_complete s sides h =
        no_key_error s (gather canonical ct_ratio (points_of sides))
          (gather-NoneMissing (points_of sides) h)
