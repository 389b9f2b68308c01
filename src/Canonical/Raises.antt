-- ===== src/Canonical/Raises.antt =====
-- canonical.py: what a lookup by index and a division in the derive steps raise.
use nd45_dtsu666_converter.Base.Int.{pos}
use nd45_dtsu666_converter.Base.{
  ◌⊎◌, ◌<◌, ◌≤◌, suc, zero, Exc, Bool-cases, false, true, quotient, of_nat, err, arith, ◌∷◌, [],
  List, inr, inl, ◌≡◌, String, Result, length, Floats, string_eq, nat_eq, ℕ,
}
use nd45_dtsu666_converter.Canonical.{pf_of, index}

-- An exception of `math.fsum`, or one of a division by a positive count that equals zero.
abbrev pub Raised : {F : Type 0} → Floats F → Exc → Type 0
Raised {F} fl e =
    ((xs : List F) × (fl.fsum xs ≡ err e))
    ⊎ ((n : ℕ) × (fl.eq (fl.of_int (pos (suc n))) (fl.of_int (pos 0)) ≡ true))

abbrev pub RaisesOnly : {F A : Type 0} → Floats F → Result A → Type 0
RaisesOnly fl m = (e : Exc) → m ≡ err e → Raised fl e

module _ {F : Type 0} ⦃fl : Floats F⦄ where
  pub index-RaisesOnly : (xs : List String) (i : ℕ) → i < length xs → RaisesOnly fl (index xs i)
  index-RaisesOnly [] i l e h = absurd (omega arith)
  index-RaisesOnly (x ∷ xs) zero l e h = absurd (cc)
  index-RaisesOnly (x ∷ xs) (suc i) l e h = index-RaisesOnly xs i (omega arith) e h

  pub quotient-RaisesOnly : (a b : F) → fl.eq b (of_nat 0) ≡ false → RaisesOnly fl (quotient a b)
  quotient-RaisesOnly a b nonzero e h = absurd (ground arith)

  pub count-RaisesOnly : (a : F) (n : ℕ) → 1 ≤ n → RaisesOnly fl (quotient a (of_nat n))
  count-RaisesOnly a zero l e h = absurd (omega arith)
  count-RaisesOnly a (suc n) l e h = elim (Bool-cases (fl.eq (of_nat (suc n)) (of_nat 0))) [
    | inl zero_ ↦ inr (n, zero_)
    | inr nonzero ↦ quotient-RaisesOnly a (of_nat (suc n)) nonzero e h
  ]

  pub pf_of-RaisesOnly : (p s : F) → RaisesOnly fl (pf_of p s)
  pf_of-RaisesOnly p s e h = absurd (ground arith)
