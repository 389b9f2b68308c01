-- ===== src/Bridges/Outputs.antt =====
-- config.py: the outputs of the bridges in a configuration that passes the check.
use nd45_dtsu666_converter.Base.{
  ok, arith, ◌∷◌, [], List, some, none, Option, false, inr, inl, ◌↔◌, refl, ◌≡◌, String, ◌>>=◌,
  contains-insert_eq, insert, contains, mem, Dict, All, Bool-cases, string_eq, nat_eq,
}
use nd45_dtsu666_converter.Bridges.{
  check_output_transports, output_eq, Output, output_of, BridgeSpec, check_outputs_from,
  take_output,
}

-- The outputs of the bridges that have one, in order.
abbrev pub with_output : Option Output → List Output → List Output
with_output none os = os
with_output (some o) os = o ∷ os

abbrev pub outputs : List BridgeSpec → List Output
outputs [] = []
outputs (b ∷ bs) = with_output (output_of b) (outputs bs)

-- No entry appears twice.
abbrev pub Distinct : List Output → Type 0
Distinct [] = Unit
Distinct (o ∷ os) = (mem o os ≡ false) × Distinct os

-- No output has an owner.
abbrev AllFree : Dict Output String → List Output → Type 0
AllFree owners os = All (λ o. contains o owners ≡ false) os

AllFree-insert :
    (o : Output) (name : String) (owners : Dict Output String) (os : List Output)
    → AllFree (insert o name owners) os ↔ (AllFree owners os × (mem o os ≡ false))
AllFree-insert o name owners [] = (λ _. (tt, refl), λ _. tt)
AllFree-insert o name owners (p ∷ ps) =
    let rest = AllFree-insert o name owners ps in
    (
      λ h. (
        (ground (arith, contains-insert_eq p o name owners), (rest.0 h.1).0),
        ground (
          arith,
          (rest.0 h.1).1,
          contains-insert_eq p o name owners,
          output_eq.beq_iff p o,
          output_eq.beq_iff o p,
        ),
      ),
      λ h. (
        ground (
          arith,
          contains-insert_eq p o name owners,
          output_eq.beq_iff p o,
          output_eq.beq_iff o p,
        ),
        rest.1 (h.0.1, ground arith),
      ),
    )

-- One round of the check.
take_output_step :
    (o : Option Output) (name : String) (owners : Dict Output String) (bs : List BridgeSpec)
    → ((next : Dict Output String)
        → (check_outputs_from next bs ≡ ok tt)
          ↔ (AllFree next (outputs bs) × Distinct (outputs bs)))
    → ((take_output o name owners >>= λ next. check_outputs_from next bs) ≡ ok tt)
      ↔ (AllFree owners (with_output o (outputs bs)) × Distinct (with_output o (outputs bs)))
take_output_step none name owners bs ih = ih owners
take_output_step (some o) name owners bs ih = elim (Bool-cases (contains o owners)) [
  | inl taken ↦ (λ h. absurd (ground arith), λ h. absurd (ground arith))
  | inr free ↦
      let later = ih (insert o name owners) in
      let split = AllFree-insert o name owners (outputs bs) in
      (
        λ h.
            let (all_free, distinct) = later.0 (rw free at h) in
            let (old, new) = split.0 all_free in ((free, old), (new, distinct)),
        λ h. rw free (later.1 (split.1 (h.0.1, h.1.0), h.1.1)),
      )
]

check_outputs_from_iff :
    (bs : List BridgeSpec) (owners : Dict Output String)
    → (check_outputs_from owners bs ≡ ok tt) ↔ (AllFree owners (outputs bs) × Distinct (outputs bs))
unfolding check_outputs_from
check_outputs_from_iff [] owners = (λ _. (tt, tt), λ _. refl)
check_outputs_from_iff (b ∷ bs) owners =
    take_output_step (output_of b) b.name owners bs (check_outputs_from_iff bs)

AllFree-nil : (os : List Output) → AllFree [] os
AllFree-nil [] = tt
AllFree-nil (o ∷ os) = (refl, AllFree-nil os)

-- The check of the outputs accepts a configuration if and only if no serial port, and no pair of
-- host and port, is the output of two bridges.
pub check_output_transports_iff :
    (specs : List BridgeSpec) → (check_output_transports specs ≡ ok tt) ↔ Distinct (outputs specs)
unfolding check_output_transports
check_output_transports_iff specs =
    let iff = check_outputs_from_iff specs [] in
    (λ h. (iff.0 h).1, λ h. iff.1 (AllFree-nil (outputs specs), h))
