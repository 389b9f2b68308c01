-- ===== src/Tests/Numbers.antt =====
-- A concrete `Floats`: integers and one value that is not a number. It stands for Python's floats
-- in the examples, where only its laws count.
use nd45_dtsu666_converter.Codec.{from_bytes}
use nd45_dtsu666_converter.Base.Int.{negsuc, pos, ℤ, eqb_ℤ, leb_ℤ, ltb_ℤ, sub_ℕ, neg_part, pos_part}
use nd45_dtsu666_converter.Base.{
  ok, arith, ◌∷◌, [], List, false, true, Bool, refl, ◌≡◌, ◌<◌, ◌%◌, ◌/◌, ◌*◌, ◌+◌, All, length,
  FloatLaws, Floats, ℕ,
}

pub data Num : Type 0 where
  num : ℤ → Num
  undefined : Num

abbrev neg_ℕ : ℕ → ℤ
neg_ℕ n = sub_ℕ 0 n

abbrev pub add_ℤ : ℤ → ℤ → ℤ
add_ℤ a b = sub_ℕ (pos_part a + pos_part b) (neg_part a + neg_part b)

abbrev mul_ℤ : ℤ → ℤ → ℤ
mul_ℤ (pos a) (pos b) = pos (a * b)
mul_ℤ (pos a) (negsuc b) = neg_ℕ (a * (b + 1))
mul_ℤ (negsuc a) (pos b) = neg_ℕ ((a + 1) * b)
mul_ℤ (negsuc a) (negsuc b) = pos ((a + 1) * (b + 1))

abbrev div_ℤ : ℤ → ℤ → ℤ
div_ℤ (pos a) (pos b) = pos (a / b)
div_ℤ (pos a) (negsuc b) = neg_ℕ (a / (b + 1))
div_ℤ (negsuc a) (pos b) = neg_ℕ ((a + 1) / b)
div_ℤ (negsuc a) (negsuc b) = pos ((a + 1) / (b + 1))

abbrev pub lift_num : (ℤ → ℤ → ℤ) → Num → Num → Num
lift_num f (num a) (num b) = num (f a b)
lift_num f _ _ = undefined

abbrev test_num : (ℤ → ℤ → Bool) → Num → Num → Bool
test_num f (num a) (num b) = f a b
test_num f _ _ = false

abbrev abs_num : Num → Num
abs_num (num a) = num (pos (pos_part a + neg_part a))
abs_num undefined = undefined

abbrev finite_num : Num → Bool
finite_num (num _) = true
finite_num undefined = false

abbrev pub sum_num : List Num → Num
sum_num [] = num (pos 0)
sum_num (x ∷ xs) = lift_num add_ℤ x (sum_num xs)

abbrev four_of : ℕ → List ℕ
four_of n = (n / 16777216 % 256) ∷ (n / 65536 % 256) ∷ (n / 256 % 256) ∷ (n % 256) ∷ []

abbrev pack_num : Num → List ℕ
pack_num (num (pos n)) = four_of n
pack_num (num (negsuc n)) = four_of (2147483648 + n)
pack_num undefined = 127 ∷ 192 ∷ 0 ∷ 0 ∷ []

abbrev unpack_num : List ℕ → Num
unpack_num bs = num (pos (from_bytes 0 bs))

instance abbrev pub num_floats : Floats Num
num_floats = record {
  of_int = num;
  nan = undefined;
  lit_1e20 = num (pos 100000000000000000000);
  lit_float32_max = num (pos 340282346638528859811704183484516925440);
  sqrt_three = num (pos 2);
  add = lift_num add_ℤ;
  mul = lift_num mul_ℤ;
  div = lift_num div_ℤ;
  abs = abs_num;
  hypot = lift_num add_ℤ;
  lt = test_num ltb_ℤ;
  le = test_num leb_ℤ;
  eq = test_num eqb_ℤ;
  is_finite = finite_num;
  sum = sum_num;
  fsum = λ xs. ok (sum_num xs);
  pack = pack_num;
  unpack = unpack_num;
}

pub pack_num-length : (x : Num) → length (pack_num x) ≡ 4
pack_num-length (num (pos n)) = refl
pack_num-length (num (negsuc n)) = refl
pack_num-length undefined = refl

four_of-bytes : (n : ℕ) → All (λ b. b < 256) (four_of n)
four_of-bytes n = (omega arith, (omega arith, (omega arith, (omega arith, tt))))

pub pack_num-bytes : (x : Num) → All (λ b. b < 256) (pack_num x)
pack_num-bytes (num (pos n)) = four_of-bytes n
pack_num-bytes (num (negsuc n)) = four_of-bytes (2147483648 + n)
pack_num-bytes undefined = (omega arith, (omega arith, (omega arith, (omega arith, tt))))

pub num_laws : FloatLaws num_floats
num_laws = record { pack-length = pack_num-length; pack-bytes = pack_num-bytes; zero-finite = refl }
