-- ===== src/Base/FloatOps.antt =====
-- Python's `float` and the functions of `math` and `struct` that the code calls. antt has no
-- floating-point numbers: their type and operations are an argument of every definition that
-- computes with them, and what a theorem needs of IEEE 754 is a named hypothesis, in `FloatLaws`.
use Prim.Native.Nat.{ℕ, ◌<◌}
use mathlib.Core.Path.{◌≡◌}
use mathlib.Core.Bool.{Bool, true}
use mathlib.Core.List.{List}
use nd45_dtsu666_converter.Base.Int.{ℤ, pos}
use nd45_dtsu666_converter.Base.Lists.{length, All}
use nd45_dtsu666_converter.Base.Results.{Result, ok, err, zero_division}
use nd45_dtsu666_converter.Base.Tests.{if◌then◌else◌}

pub record Floats (F : Type 0) : Type 0 where
  -- `float(n)`, exact for the literals of the code
  pub of_int : ℤ → F
  -- `math.nan`, and the literals 1e20, 3.4028234663852886e38 and `math.sqrt(3.0)`
  pub nan : F
  pub lit_1e20 : F
  pub lit_float32_max : F
  pub sqrt_three : F
  pub add : F → F → F
  pub mul : F → F → F
  -- `/` at a divisor that is not zero
  pub div : F → F → F
  pub abs : F → F
  pub hypot : F → F → F
  -- IEEE comparisons: false where an argument is not a number
  pub lt : F → F → Bool
  pub le : F → F → Bool
  pub eq : F → F → Bool
  pub is_finite : F → Bool
  -- the built-in `sum` of floats; `math.fsum`, which may raise
  pub sum : List F → F
  pub fsum : List F → Result F
  -- `struct.pack(">f", x)` at an `x` in the range of float32, and `struct.unpack(">f", b)[0]`
  pub pack : F → List ℕ
  pub unpack : List ℕ → F

module _ {F : Type 0} ⦃fl : Floats F⦄ where
  abbrev pub of_nat : ℕ → F
  of_nat n = fl.of_int (pos n)

  -- `a / b`
  abbrev pub quotient : F → F → Result F
  quotient a b = if fl.eq b (of_nat 0) then err zero_division else ok (fl.div a b)

-- What the theorems use of these operations.
pub record FloatLaws {F : Type 0} (fl : Floats F) : Type 0 where
  -- a float32 is four bytes
  pub pack-length : (x : F) → length (fl.pack x) ≡ 4
  pub pack-bytes : (x : F) → All (λ b. b < 256) (fl.pack x)
  -- `float(0)` is finite
  pub zero-finite : fl.is_finite (fl.of_int (pos 0)) ≡ true
