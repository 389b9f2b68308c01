-- ===== src/Canonical/Derive.antt =====
-- canonical.py: which points the derive steps of a source write, and what they raise.
use nd45_dtsu666_converter.Canonical.Raises.{
  Raised, RaisesOnly, index-RaisesOnly, quotient-RaisesOnly, count-RaisesOnly, pf_of-RaisesOnly,
}
use nd45_dtsu666_converter.Base.{
  none, ◌⊎◌, ◌≤◌, suc, lookup-insert, lookup, map, ◌++◌, not, false, true, Bool, ◌∙◌, ◌>>=◌,
  mem-append, length-map, All, quotient, of_nat, Option-cases, err, ok, arith, ◌∷◌, [], List, ◌||◌,
  inr, inl, refl, ◌≡◌, String, ◌*◌, ◌+◌, Result, Result-cases, contains-insert_eq, insert, contains,
  mem, length, Floats, string_eq, nat_eq, ℕ,
}
use nd45_dtsu666_converter.Registers.{
  DeriveOp, DeriveKind, constant, copy, split_equal, phase_from_line, hypot, ratio_split,
  pf_from_p_s, check_arity,
}
use nd45_dtsu666_converter.Registers.Map.{derive_targets}
use nd45_dtsu666_converter.Canonical.{
  hypot_of, pf_of, Values, set_all, phase_from_lines, pair_loop, weight_loop, apply_ratio_split,
  apply_kind, apply_derive, get_or_nan, index,
}

module _ {F : Type 0} ⦃fl : Floats F⦄ (k : String) where
  -- `r` has the keys of `vs` and those of `ts`, and no other, and what is not in `ts` is unchanged.
  abbrev pub Adds : List String → Values F → Result (Values F) → Type 0
  Adds ts vs (ok r) =
      (contains k r ≡ (mem k ts || contains k vs)) × (mem k ts ≡ false → lookup k r ≡ lookup k vs)
  Adds ts vs (err e) = Raised fl e

  set_all-Adds : (ts : List String) (v : F) (vs : Values F) → Adds ts vs (ok (set_all ts v vs))
  set_all-Adds [] v vs = (refl, λ _. refl)
  set_all-Adds (t ∷ ts) v vs = ground (
    arith,
    set_all-Adds ts v (insert t v vs),
    contains-insert_eq k t v vs,
    lookup-insert k t v vs,
  )

  phase_from_lines-Adds :
      (ts lines : List String) (vs : Values F)
      → length lines ≡ length ts
      → Adds ts vs (ok (phase_from_lines ts lines vs))
  phase_from_lines-Adds [] lines vs e = (refl, λ _. refl)
  phase_from_lines-Adds (t ∷ ts) [] vs e = absurd (omega arith)
  phase_from_lines-Adds (t ∷ ts) (l ∷ ls) vs e =
      let v = fl.div (get_or_nan vs l) fl.sqrt_three in
      ground (
        arith,
        phase_from_lines-Adds ts ls (insert t v vs) (omega arith),
        contains-insert_eq k t v vs,
        lookup-insert k t v vs,
      )

  Adds->>= :
      {A : Type 0} (ts : List String) (vs : Values F) (m : Result A) (f : A → Result (Values F))
      → RaisesOnly fl m
      → ((a : A) → Adds ts vs (f a))
      → Adds ts vs (m >>= f)
  Adds->>= ts vs (ok a) f r h = h a
  Adds->>= ts vs (err e) f r h = r e refl

  Adds-insert :
      (t : String) (ts : List String) (v : F) (vs : Values F) (r : Result (Values F))
      → Adds ts (insert t v vs) r
      → Adds (t ∷ ts) vs r
  Adds-insert t ts v vs (ok r) h =
      ground (arith, contains-insert_eq k t v vs, lookup-insert k t v vs)
  Adds-insert t ts v vs (err e) h = h

  pair_loop-Adds :
      (f : F → F → Result F) (from_ ts : List String) (i : ℕ) (vs : Values F)
      → ((a b : F) → RaisesOnly fl (f a b))
      → 2 * (i + length ts) ≤ length from_
      → Adds ts vs (pair_loop f from_ ts i vs)
  pair_loop-Adds f from_ [] i vs r l = (refl, λ _. refl)
  pair_loop-Adds f from_ (t ∷ ts) i vs r l =
      Adds->>= (t ∷ ts) vs (index from_ (2 * i)) _ (index-RaisesOnly from_ (2 * i) (omega arith))
        λ a.
          Adds->>= (t ∷ ts) vs (index from_ (2 * i + 1)) _
            (index-RaisesOnly from_ (2 * i + 1) (omega arith))
            λ b.
              Adds->>= (t ∷ ts) vs (f (get_or_nan vs a) (get_or_nan vs b)) _
                (r (get_or_nan vs a) (get_or_nan vs b))
                λ v.
                  Adds-insert t ts v vs _
                    (pair_loop-Adds f from_ ts (i + 1) (insert t v vs) r (omega arith))

  weight_loop-Adds :
      (total weight_sum : F) (ts : List String) (ws : List F) (vs : Values F)
      → fl.eq weight_sum (of_nat 0) ≡ false
      → length ws ≡ length ts
      → Adds ts vs (weight_loop total weight_sum ts ws vs)
  weight_loop-Adds total weight_sum [] ws vs z e = (refl, λ _. refl)
  weight_loop-Adds total weight_sum (t ∷ ts) [] vs z e = absurd (omega arith)
  weight_loop-Adds total weight_sum (t ∷ ts) (w ∷ ws) vs z e =
      Adds->>= (t ∷ ts) vs (quotient (fl.mul total (fl.abs w)) weight_sum) _
        (quotient-RaisesOnly (fl.mul total (fl.abs w)) weight_sum z)
        λ v.
          Adds-insert t ts v vs _
            (weight_loop-Adds total weight_sum ts ws (insert t v vs) z (omega arith))

  split-Adds :
      (a : F) (ts : List String) (vs : Values F)
      → 1 ≤ length ts
      → Adds ts vs (quotient a (of_nat (length ts)) >>= λ share. ok (set_all ts share vs))
  split-Adds a ts vs l =
      Adds->>= ts vs (quotient a (of_nat (length ts))) _ (count-RaisesOnly a (length ts) l)
        λ share. set_all-Adds ts share vs

  apply_ratio_split-Adds :
      (o : DeriveOp F) (vs : Values F)
      → length o.from_ ≡ 1
      → 1 ≤ length o.targets
      → length o.weights ≡ length o.targets
      → Adds o.targets vs (apply_ratio_split vs o)
  unfolding apply_ratio_split
  apply_ratio_split-Adds o vs one some_targets e =
      Adds->>= o.targets vs (index o.from_ 0) _ (index-RaisesOnly o.from_ 0 (omega arith)) λ source.
        Adds->>= o.targets vs (fl.fsum (map fl.abs (map (get_or_nan vs) o.weights))) _
          (λ x h. inl (map fl.abs (map (get_or_nan vs) o.weights), h))
          λ s. branch source s (fl.is_finite s) (fl.eq s (of_nat 0)) refl
    where
      branch :
          (source : String) (s : F) (finite zero_ : Bool)
          → fl.eq s (of_nat 0) ≡ zero_
          → Adds o.targets vs (elim (not finite || zero_) [
            | true ↦ do
              share ← quotient (get_or_nan vs source) (of_nat (length o.targets))
              ok (set_all o.targets share vs)
            | false ↦
                weight_loop (get_or_nan vs source) s o.targets (map (get_or_nan vs) o.weights) vs
          ])
      branch source s false z h = split-Adds (get_or_nan vs source) o.targets vs some_targets
      branch source s true true h = split-Adds (get_or_nan vs source) o.targets vs some_targets
      branch source s true false h =
          weight_loop-Adds (get_or_nan vs source) s o.targets (map (get_or_nan vs) o.weights) vs h
            (length-map o.weights (get_or_nan vs) ∙ e)

  -- What the validator of a step gives.
  record Arity (o : DeriveOp F) : Type 0 where
    some_targets : 1 ≤ length o.targets
    one_source : (o.op ≡ copy) ⊎ ((o.op ≡ split_equal) ⊎ (o.op ≡ ratio_split)) → length o.from_ ≡ 1
    lines : o.op ≡ phase_from_line → length o.from_ ≡ length o.targets
    pairs : (o.op ≡ hypot) ⊎ (o.op ≡ pf_from_p_s) → length o.from_ ≡ 2 * length o.targets
    weighted : o.op ≡ ratio_split → length o.weights ≡ length o.targets
    valued : o.op ≡ constant → o.value ≡ none → ⊥

  check_arity-Arity : (o : DeriveOp F) → check_arity o ≡ ok tt → Arity o
  unfolding check_arity
  check_arity-Arity o h = record {
    some_targets = ground arith;
    one_source = λ e. ground arith;
    lines = λ e. ground arith;
    pairs = λ e. ground arith;
    weighted = λ e. ground arith;
    valued = λ e v. ground arith;
  }

  apply_kind-Adds :
      (kind : DeriveKind) (o : DeriveOp F) (vs : Values F)
      → o.op ≡ kind
      → Arity o
      → Adds o.targets vs (apply_kind kind o vs)
  unfolding apply_kind
  apply_kind-Adds constant o vs e h = elim (Option-cases o.value) [
    | inl absent ↦ absurd (h.valued e absent)
    | inr (v, present) ↦ rw present (set_all-Adds o.targets v vs)
  ]
  apply_kind-Adds copy o vs e h =
      let one = h.one_source (inl e) in
      Adds->>= o.targets vs (index o.from_ 0) _ (index-RaisesOnly o.from_ 0 (omega arith))
        λ source. set_all-Adds o.targets _ vs
  apply_kind-Adds split_equal o vs e h =
      let one = h.one_source (inr (inl e)) in
      Adds->>= o.targets vs (index o.from_ 0) _ (index-RaisesOnly o.from_ 0 (omega arith))
        λ source. split-Adds (get_or_nan vs source) o.targets vs h.some_targets
  apply_kind-Adds phase_from_line o vs e h = phase_from_lines-Adds o.targets o.from_ vs (h.lines e)
  apply_kind-Adds hypot o vs e h =
      let two = h.pairs (inl e) in
      pair_loop-Adds hypot_of o.from_ o.targets 0 vs (λ a b x h. absurd (cc)) (omega arith)
  apply_kind-Adds ratio_split o vs e h =
      apply_ratio_split-Adds o vs (h.one_source (inr (inr e))) h.some_targets (h.weighted e)
  apply_kind-Adds pf_from_p_s o vs e h =
      let two = h.pairs (inr e) in
      pair_loop-Adds pf_of o.from_ o.targets 0 vs pf_of-RaisesOnly (omega arith)

  Adds-trans :
      (ts us : List String) (vs passed : Values F) (r : Result (Values F))
      → Adds ts vs (ok passed)
      → Adds us passed r
      → Adds (ts ++ us) vs r
  Adds-trans ts us vs passed (ok r) h g = ground (arith, mem-append k ts us)
  Adds-trans ts us vs passed (err e) h g = g

  pub apply_derive-Adds :
      (ops : List (DeriveOp F)) (vs : Values F)
      → All (λ o. check_arity o ≡ ok tt) ops
      → Adds (derive_targets ops) vs (apply_derive vs ops)
  unfolding apply_derive
  apply_derive-Adds [] vs h = (refl, λ _. refl)
  apply_derive-Adds (o ∷ ops) vs h = elim (Result-cases (apply_kind o.op o vs)) [
    | inr (x, e) ↦ rw e (rw e at (apply_kind-Adds o.op o vs refl (check_arity-Arity o h.0)))
    | inl (passed, e) ↦ rw e (
        Adds-trans o.targets (derive_targets ops) vs passed _
          (rw e at (apply_kind-Adds o.op o vs refl (check_arity-Arity o h.0)))
          (apply_derive-Adds ops passed h.1))
  ]

  -- `r` adds the keys `ts` to `vs`, or it is an exception of `math.fsum`.
  abbrev pub Completes : List String → Values F → Result (Values F) → Type 0
  Completes ts vs (ok r) = Adds ts vs (ok r)
  Completes ts vs (err e) = (xs : List F) × (fl.fsum xs ≡ err e)

  -- Where a positive count is not equal to zero as a float, validated derive steps raise nothing but
  -- what `math.fsum` raises, and otherwise leave exactly the points that were there and the targets
  -- of the steps: a point is present afterwards if and only if it was before or some step names it as
  -- a target; and a point that no step names keeps its value.
  pub apply_derive-Completes :
      (ops : List (DeriveOp F)) (vs : Values F)
      → ((n : ℕ) → fl.eq (of_nat (suc n)) (of_nat 0) ≡ false)
      → All (λ o. check_arity o ≡ ok tt) ops
      → Completes (derive_targets ops) vs (apply_derive vs ops)
  apply_derive-Completes ops vs positive h = go (apply_derive vs ops) (apply_derive-Adds ops vs h)
    where
      go :
          (r : Result (Values F))
          → Adds (derive_targets ops) vs r
          → Completes (derive_targets ops) vs r
      go (ok r) adds = adds
      go (err e) (inl of_fsum) = of_fsum
      go (err e) (inr (n, same)) = absurd (cc (positive n))
