-- ===== src/Codec/Points.antt =====
-- codec.py: float32 values as register words.
use nd45_dtsu666_converter.Base.Int.{pos, eqb_ℤ, ℤ}
use nd45_dtsu666_converter.Base.{
  Exc, length-set, inr, inl, lookup, Option-cases, Bool, ◌^◌, ◌*◌, ◌-◌, value_error, err, some,
  Option, ◌⊎◌, Result, set, get_elem?, nat_eq, ◌==◌, if◌then◌else◌, ℕ, ◌<◌, ◌≡◌, refl, String, true,
  false, List, [], ◌∷◌, arith, ok, All, length, Floats, FloatLaws, ◌>>=◌, string_eq,
}
use nd45_dtsu666_converter.Codec.Ints.{InRange, encode_int, registers_to_int_exact}
use nd45_dtsu666_converter.Codec.{
  int_sentinel, int_dtypes, dtype_info, decode_int_point, scale_raw, int_is_invalid, encode_point,
  word_bytes, bytes_word, registers_to_float, float_to_registers,
}

abbrev Bytes : List ℕ → Type 0
Bytes raw = All (λ b. b < 256) raw

-- Four bytes by name.
four-Bytes :
    (raw : List ℕ)
    → length raw ≡ 4
    → Bytes raw
    → (a b c d : ℕ) × (raw ≡ a ∷ b ∷ c ∷ d ∷ []) × (a < 256) × (b < 256) × (c < 256) × (d < 256)
four-Bytes (a ∷ b ∷ c ∷ d ∷ []) e h = (a, b, c, d, refl, h.0, h.1.0, h.1.1.0, h.1.1.1.0)
four-Bytes [] e h = absurd (omega arith)
four-Bytes (_ ∷ []) e h = absurd (omega arith)
four-Bytes (_ ∷ _ ∷ []) e h = absurd (omega arith)
four-Bytes (_ ∷ _ ∷ _ ∷ []) e h = absurd (omega arith)
four-Bytes (_ ∷ _ ∷ _ ∷ _ ∷ _ ∷ _) e h = absurd (omega arith)

module _ {F : Type 0} ⦃fl : Floats F⦄ where
  -- What `float_to_registers` writes: the two words of the packed bytes, or `ValueError`.
  abbrev pub Encoded : F → Result (List ℕ) → Type 0
  Encoded v (ok regs) =
      (length regs ≡ 2)
      × All (λ w. w < 65536) regs
      × (fl.is_finite v ≡ true)
      × (fl.lt fl.lit_float32_max (fl.abs v) ≡ false)
  Encoded v (err e) =
      (e ≡ value_error) × ((fl.is_finite v ≡ false) ⊎ (fl.lt fl.lit_float32_max (fl.abs v) ≡ true))

module _ {F : Type 0} ⦃fl : Floats F⦄ (laws : FloatLaws fl) (v : F) (wo bo : String) where
  -- A value encodes to two 16-bit words exactly when it is finite and within float32; the only
  -- other outcome is `ValueError`.
  pub float_to_registers_outcome : Encoded v (float_to_registers v wo bo)
  unfolding float_to_registers bytes_word
  float_to_registers_outcome =
      let (a, b, c, d, e, ha, hb, hc, hd) =
        four-Bytes (fl.pack v) (laws.pack-length v) (laws.pack-bytes v) in
      rw e (ground arith)

  -- A finite value within float32, encoded under some word order and byte order, is decoded under
  -- the same two to the float32 that the value packs to.
  pub registers_to_float-float_to_registers :
      fl.is_finite v ≡ true
      → fl.lt fl.lit_float32_max (fl.abs v) ≡ false
      → (float_to_registers v wo bo >>= λ regs. registers_to_float regs wo bo)
        ≡ ok (fl.unpack (fl.pack v))
  unfolding float_to_registers registers_to_float word_bytes bytes_word
  registers_to_float-float_to_registers finite fits =
      let (a, b, c, d, e, ha, hb, hc, hd) =
        four-Bytes (fl.pack v) (laws.pack-length v) (laws.pack-bytes v) in
      rw (finite, fits, e) (ground arith)

-- The high word of a pair of registers, and the low one.
abbrev pub high_word : String → List ℕ → Option ℕ
high_word wo regs = get_elem? regs (if wo == "big" then 0 else 1)

abbrev pub low_word : String → List ℕ → Option ℕ
low_word wo regs = get_elem? regs (if wo == "big" then 1 else 0)

-- How the coarse encoding of a value relates to the full one.
abbrev pub Coarse : String → Result (List ℕ) → Result (List ℕ) → Type 0
Coarse wo (ok full) (ok coarse) =
    (length full ≡ 2)
    × (low_word wo coarse ≡ some 0)
    × (high_word wo coarse ≡ high_word wo full)
    × (length coarse ≡ 2)
Coarse wo (err e) (err e') = e ≡ e'
Coarse wo _ _ = ⊥

module _ {F : Type 0} ⦃fl : Floats F⦄ (laws : FloatLaws fl) where
  Coarse-of_full :
      (wo : String) (v : F) (r : Result (List ℕ))
      → Encoded v r
      → Coarse wo
          (r >>= λ full. ok full)
          (r >>= λ full. ok (set full (if wo == "big" then 1 else 0) 0))
  Coarse-of_full wo v (ok (x ∷ y ∷ [])) h = ground arith
  Coarse-of_full wo v (ok []) h = absurd (omega arith)
  Coarse-of_full wo v (ok (_ ∷ [])) h = absurd (omega arith)
  Coarse-of_full wo v (ok (_ ∷ _ ∷ _ ∷ _)) h = absurd (omega arith)
  Coarse-of_full wo v (err e) h = refl

  -- `zero_low_word` clears the low word of the pair and nothing else, whichever of the two it is
  -- under the word order, and raises exactly what the full encoding raises.
  pub encode_point-Coarse :
      (si scale : F) (sign : ℤ) (offset : F) (wo bo : String)
      → Coarse wo
          (encode_point si scale sign offset wo bo false)
          (encode_point si scale sign offset wo bo true)
  unfolding encode_point
  encode_point-Coarse si scale sign offset wo bo = Coarse-of_full wo _ _ (
      float_to_registers_outcome laws (fl.add (fl.mul (fl.mul si (fl.of_int sign)) scale) offset) wo
        bo)

-- The largest value of a type of `count` registers.
abbrev pub top : ℕ → Bool → ℕ
top count true = 2 ^ (count * 16 - 1) - 1
top count false = 2 ^ (count * 16) - 1

sentinel_top :
    (dtype : String) (count : ℕ) (signed : Bool)
    → dtype_info value_error dtype ≡ ok (count, signed)
    → int_sentinel dtype ≡ ok (top count signed)
unfolding int_sentinel
sentinel_top dtype count signed h = elim (Option-cases (lookup dtype int_dtypes)) [
  | inl missing ↦ ground arith
  | inr (info, found) ↦ ground arith
]

-- A sized integer in range decodes to NaN exactly at the largest value of its type, and to its
-- scaled value everywhere else.
pub decode_int_point_exact :
    {F : Type 0} ⦃fl : Floats F⦄ (dtype wo bo : String) (count : ℕ) (signed : Bool) (z sign : ℤ)
    (scale offset : F)
    → dtype_info value_error dtype ≡ ok (count, signed)
    → InRange count signed z
    → decode_int_point (encode_int count wo bo z) dtype scale sign offset wo bo
      ≡ ok (
          if eqb_ℤ z (pos (top count signed))
          then fl.nan
          else scale_raw (fl.of_int z) scale sign offset)
unfolding decode_int_point int_is_invalid
decode_int_point_exact dtype wo bo count signed z sign scale offset e h =
    rw (registers_to_int_exact dtype wo bo count signed z e h, sentinel_top dtype count signed e)

module _ {F : Type 0} ⦃fl : Floats F⦄ (laws : FloatLaws fl) where
  two_words :
      (v : F) (i : ℕ) (coarse : Bool) (r : Result (List ℕ)) {regs : List ℕ}
      → Encoded v r
      → (r >>= λ full. ok (if coarse then set full i 0 else full)) ≡ ok regs
      → length regs ≡ 2
  two_words v i coarse (ok full) h e = ground (arith, length-set full i 0)
  two_words v i coarse (err x) h e = cc

  -- An encoded point is two registers.
  pub encode_point-length :
      (si scale : F) (sign : ℤ) (offset : F) (wo bo : String) (coarse : Bool) {regs : List ℕ}
      → encode_point si scale sign offset wo bo coarse ≡ ok regs
      → length regs ≡ 2
  unfolding encode_point
  encode_point-length si scale sign offset wo bo coarse h =
      let v = fl.add (fl.mul (fl.mul si (fl.of_int sign)) scale) offset in
      two_words v (if wo == "big" then 1 else 0) coarse (float_to_registers v wo bo)
        (float_to_registers_outcome laws v wo bo) h

  raised_by_coarse :
      (v : F) (i : ℕ) (coarse : Bool) (r : Result (List ℕ)) {x : Exc}
      → Encoded v r
      → (r >>= λ full. ok (if coarse then set full i 0 else full)) ≡ err x
      → x ≡ value_error
  raised_by_coarse v i coarse (ok full) h e = cc
  raised_by_coarse v i coarse (err y) h e = ground arith

  -- The only exception of an encoding is `ValueError`.
  pub encode_point_raises :
      (si scale : F) (sign : ℤ) (offset : F) (wo bo : String) (coarse : Bool) {x : Exc}
      → encode_point si scale sign offset wo bo coarse ≡ err x
      → x ≡ value_error
  unfolding encode_point
  encode_point_raises si scale sign offset wo bo coarse h =
      let v = fl.add (fl.mul (fl.mul si (fl.of_int sign)) scale) offset in
      raised_by_coarse v (if wo == "big" then 1 else 0) coarse (float_to_registers v wo bo)
        (float_to_registers_outcome laws v wo bo) h
