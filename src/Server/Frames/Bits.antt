-- ===== src/Server/Frames/Bits.antt =====
-- Exclusive or at variables: the equation for the lowest digit, from the definition by binary
-- digits that the native operation stands for, a bound, and cancellation of the low digits.
use Prim.Native.Nat.{bit_xor, bit_xor-bitwise, digits, differ}
use native.Mathlib.Nat.{pow-suc}
use nd45_dtsu666_converter.Base.{
  arith, ◌∙◌, ap, refl, ◌≡◌, ◌<◌, ◌≤◌, ◌^◌, ◌%◌, ◌/◌, ◌*◌, ◌+◌, suc, zero, ℕ,
}

abbrev xor_digits : ℕ → ℕ → ℕ → ℕ
xor_digits n a b = digits (λ y. y) differ n a b

xor_digits_fuel : (n m a b : ℕ) → a ≤ n → a ≤ m → xor_digits n a b ≡ xor_digits m a b
xor_digits_fuel zero zero a b p q = refl
xor_digits_fuel zero (suc m) zero b p q = refl
xor_digits_fuel zero (suc m) (suc a) b p q = absurd (omega arith)
xor_digits_fuel (suc n) zero zero b p q = refl
xor_digits_fuel (suc n) zero (suc a) b p q = absurd (omega arith)
xor_digits_fuel (suc n) (suc m) zero b p q = refl
xor_digits_fuel (suc n) (suc m) (suc a) b p q =
    omega (arith, xor_digits_fuel n m (suc a / 2) (b / 2) (omega arith) (omega arith))

zero-bit_xor : (b : ℕ) → bit_xor 0 b ≡ b
zero-bit_xor b = bit_xor-bitwise 0 b

differ_bit : (b : ℕ) → differ 0 b ≡ b
differ_bit b = refl

bit_xor_step : (a b : ℕ) → bit_xor a b ≡ bit_xor (a / 2) (b / 2) * 2 + differ (a % 2) (b % 2)
bit_xor_step zero b = omega (arith, zero-bit_xor b, zero-bit_xor (b / 2))
bit_xor_step (suc a) b = omega (
  arith,
  bit_xor-bitwise (suc a) b,
  bit_xor-bitwise (suc a / 2) (b / 2),
  xor_digits_fuel a (suc a / 2) (suc a / 2) (b / 2) (omega arith) (omega arith),
)

differ_bound : (x y : ℕ) → x < 2 → y < 2 → differ x y < 2
differ_bound zero y p q = q
differ_bound (suc zero) zero p q = omega arith
differ_bound (suc zero) (suc y) p q = omega arith
differ_bound (suc (suc x)) y p q = absurd (omega arith)

differ_self : (x : ℕ) → differ x x ≡ 0
differ_self zero = refl
differ_self (suc x) = differ_self x

-- Numbers of `n` digits have an exclusive or of `n` digits.
pub bit_xor_bound : (n a b : ℕ) → a < 2 ^ n → b < 2 ^ n → bit_xor a b < 2 ^ n
bit_xor_bound zero a b p q = let e : a ≡ 0 = omega arith in rw (e, zero-bit_xor b) q
bit_xor_bound (suc n) a b p q =
    let step =
      bit_xor_bound n (a / 2) (b / 2) (omega (arith, pow-suc 2 n)) (omega (arith, pow-suc 2 n)) in
    omega (
      arith,
      bit_xor_step a b,
      differ_bound (a % 2) (b % 2) (omega arith) (omega arith),
      pow-suc 2 n,
    )

bit_xor-zero : (n a : ℕ) → a < 2 ^ n → bit_xor a 0 ≡ a
bit_xor-zero zero a p = let e : a ≡ 0 = omega arith in rw e (zero-bit_xor 0)
bit_xor-zero (suc n) a p =
    ground (
      arith,
      bit_xor_step a 0,
      bit_xor-zero n (a / 2) (omega (arith, pow-suc 2 n)),
      bit_zero (a % 2),
    )
  where
    bit_zero : (x : ℕ) → differ x 0 ≡ x
    bit_zero zero = refl
    bit_zero (suc x) = refl

-- The low byte of a 16-bit number cancels with itself.
low_cancels : (k q r : ℕ) → q < 256 → r < 2 ^ k → bit_xor (q * 2 ^ k + r) r ≡ q * 2 ^ k
low_cancels zero q r p h =
    let e : r ≡ 0 = omega arith in
    rw e (let f : q * 1 + 0 ≡ q = omega arith in rw f (bit_xor-zero 8 q p ∙ omega arith))
low_cancels (suc k) q r p h =
    let v = q * 2 ^ suc k + r in
    let double : q * 2 ^ suc k ≡ 2 * (q * 2 ^ k) =
      omega (arith, ap (λ (t : ℕ). q * t) (pow-suc 2 k)) in
    let half : v / 2 ≡ q * 2 ^ k + r / 2 = omega arith in
    let odd : v % 2 ≡ r % 2 = omega arith in
    let rest = low_cancels k q (r / 2) p (omega (arith, pow-suc 2 k)) in
    bit_xor_step v r ∙ rw (half, odd, rest, differ_self (r % 2)) (omega arith)

pub bit_xor_low_byte : (q r : ℕ) → q < 256 → r < 256 → bit_xor (q * 256 + r) r ≡ q * 256
bit_xor_low_byte q r p h = low_cancels 8 q r p h
