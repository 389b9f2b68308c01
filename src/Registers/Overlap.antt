-- ===== src/Registers/Overlap.antt =====
-- config.py: `TargetSide._check_point_ranges_do_not_overlap`, and points that share a register.
use nd45_dtsu666_converter.Registers.{
  check_point_ranges_do_not_overlap, TargetPoint, check_overlap_from, TargetSide,
}
use nd45_dtsu666_converter.Base.{
  ok, arith, ◌∷◌, [], List, false, ◌⊎◌, ◌↔◌, refl, ◌≡◌, String, ◌≤◌, ◌+◌, contains-insert_eq,
  insert, contains, values, Dict, All, string_eq, nat_eq, ℕ,
}

module _ {F : Type 0} where
  -- Two float32 points share no register.
  abbrev pub Separated : TargetPoint F → TargetPoint F → Type 0
  Separated p q = (p.addr + 2 ≤ q.addr) ⊎ (q.addr + 2 ≤ p.addr)

  -- Every point is separate from every later one.
  abbrev pub AllSeparated : List (TargetPoint F) → Type 0
  AllSeparated [] = Unit
  AllSeparated (p ∷ ps) = All (Separated p) ps × AllSeparated ps

  -- The registers of a point are not among the occupied ones.
  abbrev Vacant : Dict ℕ String → TargetPoint F → Type 0
  Vacant occupied p = (contains p.addr occupied ≡ false) × (contains (p.addr + 1) occupied ≡ false)

  -- The registers that one round adds.
  abbrev with_point : Dict ℕ String → String → TargetPoint F → Dict ℕ String
  with_point occupied name p = insert (p.addr + 1) name (insert p.addr name occupied)

  round_outcome :
      (occupied : Dict ℕ String) (name : String) (p : TargetPoint F)
      (rest : Dict String (TargetPoint F))
      → (check_overlap_from occupied ((name, p) ∷ rest) ≡ ok tt)
        ↔ (Vacant occupied p × (check_overlap_from (with_point occupied name p) rest ≡ ok tt))
  unfolding check_overlap_from
  round_outcome occupied name p rest = (
    λ h. ground (arith, contains-insert_eq (p.addr + 1) p.addr name occupied),
    λ h. ground (arith, contains-insert_eq (p.addr + 1) p.addr name occupied),
  )

  with_point-Vacant :
      (occupied : Dict ℕ String) (name : String) (p q : TargetPoint F)
      → Vacant (with_point occupied name p) q ↔ (Vacant occupied q × Separated p q)
  with_point-Vacant occupied name p q = (
    λ h. ground (
      arith,
      contains-insert_eq q.addr (p.addr + 1) name (insert p.addr name occupied),
      contains-insert_eq q.addr p.addr name occupied,
      contains-insert_eq (q.addr + 1) (p.addr + 1) name (insert p.addr name occupied),
      contains-insert_eq (q.addr + 1) p.addr name occupied,
    ),
    λ h. ground (
      arith,
      contains-insert_eq q.addr (p.addr + 1) name (insert p.addr name occupied),
      contains-insert_eq q.addr p.addr name occupied,
      contains-insert_eq (q.addr + 1) (p.addr + 1) name (insert p.addr name occupied),
      contains-insert_eq (q.addr + 1) p.addr name occupied,
    ),
  )

  All-with_point :
      (occupied : Dict ℕ String) (name : String) (p : TargetPoint F) (ps : List (TargetPoint F))
      → All (Vacant (with_point occupied name p)) ps
        ↔ (All (Vacant occupied) ps × All (Separated p) ps)
  All-with_point occupied name p [] = (λ _. (tt, tt), λ _. tt)
  All-with_point occupied name p (q ∷ qs) =
      let here = with_point-Vacant occupied name p q in
      let there = All-with_point occupied name p qs in
      (
        λ h. (((here.0 h.0).0, (there.0 h.1).0), ((here.0 h.0).1, (there.0 h.1).1)),
        λ h. (here.1 (h.0.0, h.1.0), there.1 (h.0.1, h.1.1)),
      )

  overlap_from :
      (occupied : Dict ℕ String) (pts : Dict String (TargetPoint F))
      → (check_overlap_from occupied pts ≡ ok tt)
        ↔ (All (Vacant occupied) (values pts) × AllSeparated (values pts))
  unfolding check_overlap_from
  overlap_from occupied [] = (λ _. (tt, tt), λ _. refl)
  overlap_from occupied ((name, p) ∷ rest) =
      let first = round_outcome occupied name p rest in
      let later = overlap_from (with_point occupied name p) rest in
      let split = All-with_point occupied name p (values rest) in
      (
        λ h.
            let (vacant, passed) = first.0 h in
            let (all_vacant, separated) = later.0 passed in
            let (old, apart) = split.0 all_vacant in ((vacant, old), (apart, separated)),
        λ h. first.1 (h.0.0, later.1 (split.1 (h.0.1, h.1.0), h.1.1)),
      )

  Vacant-nil : (ps : List (TargetPoint F)) → All (Vacant []) ps
  Vacant-nil [] = tt
  Vacant-nil (p ∷ ps) = ((refl, refl), Vacant-nil ps)

  -- A side of the output map is accepted if and only if no two of its points share a register.
  pub check_point_ranges_do_not_overlap_iff :
      (side : TargetSide F)
      → (check_point_ranges_do_not_overlap side ≡ ok tt) ↔ AllSeparated (values side.points)
  unfolding check_point_ranges_do_not_overlap
  check_point_ranges_do_not_overlap_iff side =
      let iff = overlap_from [] side.points in
      (λ h. (iff.0 h).1, λ h. iff.1 (Vacant-nil (values side.points), h))
