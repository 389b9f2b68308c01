-- ===== src/Server/Encode/Update.antt =====
-- dtsu_server.py: `update_datastore` on a sample that it refuses, and on one that it accepts.
use nd45_dtsu666_converter.Base.{
  err, ok, arith, ◌∷◌, [], List, inr, inl, ◌∙◌, ap, sym, ◌≡◌, String, Result, Exc, Result-cases,
  ◌>>=◌, All, length, FloatLaws, Floats, ℕ,
}
use nd45_dtsu666_converter.Registers.{TargetPoint, TargetSide}
use nd45_dtsu666_converter.Codec.Points.{encode_point-length}
use nd45_dtsu666_converter.Canonical.{Values}
use nd45_dtsu666_converter.Datastore.{Datastore, DatastoreLaws}
use nd45_dtsu666_converter.Server.Encode.{
  Write, encode_target_point, ct_divided, gather, complete, pending_writes, points_of, write_all,
  update_datastore, commit,
}
use nd45_dtsu666_converter.Server.Encode.Image.{
  Clear, Separate, Holds, write_all-Holds, Clears, Disjoint, Serves, Gathered, GatheredAll,
  gather-GatheredAll,
}

-- A sample that is refused leaves every register as it was.
pub update_datastore_atomic :
    {F S : Type 0} ⦃fl : Floats F⦄ ⦃ds : Datastore S⦄ (s : S) (canonical : Values F)
    (sides : List (TargetSide F)) (ct_ratio : F) {x : Exc}
    → (update_datastore s canonical sides ct_ratio).0 ≡ err x
    → (update_datastore s canonical sides ct_ratio).1 ≡ s
unfolding update_datastore
update_datastore_atomic s canonical sides ct_ratio h =
    elim (Result-cases (pending_writes canonical ct_ratio sides)) [
      | inl (ws, e) ↦ absurd (ground arith)
      | inr (x, e) ↦ rw e
    ]

module _ {F : Type 0} ⦃fl : Floats F⦄ (laws : FloatLaws fl) where
  pub encode_target_point-length :
      (si : F) (pt : TargetPoint F) (side : TargetSide F) (ct_ratio : F) {regs : List ℕ}
      → encode_target_point si pt side ct_ratio ≡ ok regs
      → length regs ≡ 2
  unfolding encode_target_point
  encode_target_point-length si pt side ct_ratio h =
      elim (Result-cases (ct_divided si pt.divide_by_ct ct_ratio)) [
        | inr (x, e) ↦ absurd (ground arith)
        | inl (value, e) ↦
            encode_point-length laws value pt.scale pt.sign pt.offset side.word_order
              side.byte_order pt.zero_low_word (rw e at h)
      ]

module _ {F S : Type 0} ⦃fl : Floats F⦄ ⦃ds : Datastore S⦄ (laws : FloatLaws fl)
    (dsl : DatastoreLaws ds) (canonical : Values F) (ct_ratio : F) where
  Gathered-Clear :
      (side : TargetSide F) (pt : TargetPoint F) (w : Write)
      (rounds : List (TargetSide F × TargetPoint F)) (ws : List Write)
      → w.function_code ≡ side.function_code
      → w.address ≡ pt.addr
      → length w.registers ≡ 2
      → All (Clears (side, pt)) rounds
      → Gathered canonical ct_ratio rounds ws
      → All (Clear dsl w.function_code w.address (length w.registers)) ws
  Gathered-Clear side pt w [] [] f a l c g = tt
  Gathered-Clear side pt w [] (_ ∷ _) f a l c g = absurd g
  Gathered-Clear side pt w (_ ∷ _) [] f a l c g = absurd g
  Gathered-Clear side pt w ((t, q) ∷ rounds) (v ∷ ws) f a l c g = (
    rw (f, a, l, g.0, g.1, encode_target_point-length laws (g.2.0) q t ct_ratio (g.2.2)) c.0,
    Gathered-Clear side pt w rounds ws f a l c.1 g.3,
  )

  Gathered-Separate :
      (rounds : List (TargetSide F × TargetPoint F)) (ws : List Write)
      → Disjoint rounds
      → Gathered canonical ct_ratio rounds ws
      → Separate dsl ws
  Gathered-Separate [] [] d g = tt
  Gathered-Separate [] (_ ∷ _) d g = absurd g
  Gathered-Separate (_ ∷ _) [] d g = absurd g
  Gathered-Separate ((side, pt) ∷ rounds) (w ∷ ws) d g = (
    Gathered-Clear side pt w rounds ws g.0 g.1
        (encode_target_point-length laws (g.2.0) pt side ct_ratio (g.2.2)) d.0 g.3,
    Gathered-Separate rounds ws d.1 g.3,
  )

  Gathered-Serves :
      (s : S) (rounds : List (TargetSide F × TargetPoint F)) (ws : List Write)
      → Gathered canonical ct_ratio rounds ws
      → All (Holds dsl s) ws
      → All (Serves s canonical ct_ratio) rounds
  Gathered-Serves s [] [] g h = tt
  Gathered-Serves s [] (_ ∷ _) g h = absurd g
  Gathered-Serves s (_ ∷ _) [] g h = absurd g
  Gathered-Serves s ((side, pt) ∷ rounds) (w ∷ ws) g h =
      let l = encode_target_point-length laws (g.2.0) pt side ct_ratio (g.2.2) in
      (
        (g.2.0, g.2.1, g.2.2 ∙ ap ok (sym (rw (g.0, g.1, l) at h.0))),
        Gathered-Serves s rounds ws g.3 h.1,
      )

  Serves-of_gather :
      (s : S) (rounds : List (TargetSide F × TargetPoint F)) (r : Result (List Write × List String))
      → Disjoint rounds
      → GatheredAll canonical ct_ratio rounds r
      → (commit s (r >>= complete)).0 ≡ ok tt
      → All (Serves (commit s (r >>= complete)).1 canonical ct_ratio) rounds
  Serves-of_gather s rounds (ok (ws, [])) d g h =
      Gathered-Serves (write_all s ws) rounds ws g
        (write_all-Holds dsl s ws (Gathered-Separate rounds ws d g))
  Serves-of_gather s rounds (ok (ws, _ ∷ _)) d g h = absurd (ground arith)
  Serves-of_gather s rounds (err x) d g h = absurd (ground arith)

  -- After a sample is accepted every point of every map holds the encoding of its canonical value,
  -- provided that no two points of the maps share a register.
  pub update_datastore-Serves :
      (s : S) (sides : List (TargetSide F))
      → Disjoint (points_of sides)
      → (update_datastore s canonical sides ct_ratio).0 ≡ ok tt
      → All
          (Serves (update_datastore s canonical sides ct_ratio).1 canonical ct_ratio)
          (points_of sides)
  unfolding update_datastore pending_writes
  update_datastore-Serves s sides d h =
      Serves-of_gather s (points_of sides) (gather canonical ct_ratio (points_of sides)) d
        (gather-GatheredAll canonical ct_ratio (points_of sides)) h
