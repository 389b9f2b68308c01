-- ===== src/Codec/Ints.antt =====
-- codec.py: sized integers as register words.
use nd45_dtsu666_converter.Base.{
  inr, ◌⊎◌, ap, refl, Exc, nat_eq, inl, Bool-cases, value_error, leb, ◌∙◌, ◌&&◌, length, All, ℕ,
  zero, suc, ◌<◌, ◌≤◌, ◌+◌, ◌-◌, ◌*◌, ◌/◌, ◌%◌, ◌^◌, ◌≡◌, String, Bool, true, false, List, [], ◌∷◌,
  arith, ok, ◌==◌, string_eq, if◌then◌else◌, reverse, map,
}
use nd45_dtsu666_converter.Base.Int.{sub_ℕ, ℤ, pos, negsuc, pos_part, neg_part}
use nd45_dtsu666_converter.Codec.{
  dtype_info, from_bytes, join_bytes, int_from_bytes, word_bytes, registers_to_int,
}

-- An independent reading of the format: the words of `n`, most significant first.
abbrev pub words_of : ℕ → ℕ → List ℕ
words_of zero n = []
words_of (suc k) n = (n / 65536 ^ k % 65536) ∷ words_of k n

-- A register as the device sends it: its two bytes swapped under a little-endian byte order.
abbrev pub wire_word : String → ℕ → ℕ
wire_word bo w = if bo == "big" then w else w % 256 * 256 + w / 256

abbrev pub wire_words : String → String → List ℕ → List ℕ
wire_words wo bo ws = map (wire_word bo) (if wo == "big" then ws else reverse ws)

-- Two's complement in `bits` bits.
abbrev pub residue : ℕ → ℤ → ℕ
residue bits (pos n) = n
residue bits (negsuc n) = 2 ^ bits - 1 - n

-- The values of a type of `count` registers.
abbrev pub InRange : ℕ → Bool → ℤ → Type 0
InRange count true z = (pos_part z < 2 ^ (16 * count - 1)) × (neg_part z ≤ 2 ^ (16 * count - 1))
InRange count false z = (pos_part z < 2 ^ (16 * count)) × (neg_part z ≡ 0)

abbrev pub encode_int : ℕ → String → String → ℤ → List ℕ
encode_int count wo bo z = wire_words wo bo (words_of count (residue (16 * count) z))

one_unsigned :
    (dtype wo bo : String) (z : ℤ)
    → dtype_info value_error dtype ≡ ok (1, false)
    → InRange 1 false z
    → registers_to_int (encode_int 1 wo bo z) dtype wo bo ≡ ok z
unfolding registers_to_int word_bytes
one_unsigned dtype wo bo (pos n) e h = rw e (ground arith)
one_unsigned dtype wo bo (negsuc n) e h = absurd (omega arith)

one_signed :
    (dtype wo bo : String) (z : ℤ)
    → dtype_info value_error dtype ≡ ok (1, true)
    → InRange 1 true z
    → registers_to_int (encode_int 1 wo bo z) dtype wo bo ≡ ok z
unfolding registers_to_int word_bytes
one_signed dtype wo bo (pos n) e h = rw e (ground arith)
one_signed dtype wo bo (negsuc n) e h = rw e (ground arith)

two_unsigned :
    (dtype wo bo : String) (z : ℤ)
    → dtype_info value_error dtype ≡ ok (2, false)
    → InRange 2 false z
    → registers_to_int (encode_int 2 wo bo z) dtype wo bo ≡ ok z
unfolding registers_to_int word_bytes
two_unsigned dtype wo bo (pos n) e h = rw e (ground arith)
two_unsigned dtype wo bo (negsuc n) e h = absurd (omega arith)

two_signed :
    (dtype wo bo : String) (z : ℤ)
    → dtype_info value_error dtype ≡ ok (2, true)
    → InRange 2 true z
    → registers_to_int (encode_int 2 wo bo z) dtype wo bo ≡ ok z
unfolding registers_to_int word_bytes
two_signed dtype wo bo (pos n) e h = rw e (ground arith)
two_signed dtype wo bo (negsuc n) e h = rw e (ground arith)

-- The words of a value, read back one after the other.
abbrev horner : ℕ → List ℕ → ℕ
horner acc [] = acc
horner acc (w ∷ ws) = horner (acc * 65536 + w) ws

from_bytes-join_bytes :
    (bo : String) (acc : ℕ) (ws : List ℕ)
    → All (λ w. w < 65536) ws
    → from_bytes acc (join_bytes (map (wire_word bo) ws) bo) ≡ horner acc ws
unfolding word_bytes
from_bytes-join_bytes bo acc [] h = refl
from_bytes-join_bytes bo acc (w ∷ ws) h =
    ground (arith, from_bytes-join_bytes bo (acc * 65536 + w) ws h.1, split)
  where
    split : (acc * 256 + w / 256) * 256 + w % 256 ≡ acc * 65536 + w
    split = omega arith

length-join_bytes : (bo : String) (ws : List ℕ) → length (join_bytes ws bo) ≡ 2 * length ws
unfolding word_bytes
length-join_bytes bo [] = refl
length-join_bytes bo (w ∷ ws) = ground (arith, length-join_bytes bo ws)

words_of_four : (n : ℕ) → n < 2 ^ 64 → horner 0 (words_of 4 n) ≡ n
words_of_four n h = omega arith

words_of_four_bounded : (n : ℕ) → All (λ w. w < 65536) (words_of 4 n)
words_of_four_bounded n = omega arith

four_words :
    (bo : String) (n : ℕ) (signed : Bool)
    → n < 2 ^ 64
    → int_from_bytes (join_bytes (map (wire_word bo) (words_of 4 n)) bo) signed
      ≡ (if signed && leb (2 ^ 63) n then sub_ℕ n (2 ^ 64) else pos n)
four_words bo n signed h = rw (
  from_bytes-join_bytes bo 0 (words_of 4 n) (words_of_four_bounded n),
  length-join_bytes bo (map (wire_word bo) (words_of 4 n)),
  words_of_four n h,
)

ordered_four :
    (dtype : String) (signed : Bool) (wo bo : String) (n : ℕ)
    → dtype_info value_error dtype ≡ ok (4, signed)
    → n < 2 ^ 64
    → registers_to_int (wire_words wo bo (words_of 4 n)) dtype wo bo
      ≡ ok (if signed && leb (2 ^ 63) n then sub_ℕ n (2 ^ 64) else pos n)
unfolding registers_to_int
ordered_four dtype signed wo bo n e h = elim (Bool-cases (wo == "big")) [
  | inl big ↦ rw (e, big) (ap ok (four_words bo n signed h))
  | inr little ↦ rw (e, little) (ap ok (four_words bo n signed h))
]

four_unsigned :
    (dtype wo bo : String) (z : ℤ)
    → dtype_info value_error dtype ≡ ok (4, false)
    → InRange 4 false z
    → registers_to_int (encode_int 4 wo bo z) dtype wo bo ≡ ok z
four_unsigned dtype wo bo (pos n) e h = ordered_four dtype false wo bo n e h.0
four_unsigned dtype wo bo (negsuc n) e h = absurd (omega arith)

four_signed :
    (dtype wo bo : String) (z : ℤ)
    → dtype_info value_error dtype ≡ ok (4, true)
    → InRange 4 true z
    → registers_to_int (encode_int 4 wo bo z) dtype wo bo ≡ ok z
four_signed dtype wo bo (pos n) e h = ordered_four dtype true wo bo n e (omega arith) ∙ ground arith
four_signed dtype wo bo (negsuc n) e h =
    ordered_four dtype true wo bo (2 ^ 64 - 1 - n) e (omega arith) ∙ ground arith

-- The six types have one, two or four registers.
pub dtype_info_counts :
    (x : Exc) (dtype : String) {count : ℕ} {signed : Bool}
    → dtype_info x dtype ≡ ok (count, signed)
    → (count ≡ 1) ⊎ ((count ≡ 2) ⊎ (count ≡ 4))
dtype_info_counts x dtype e = ground arith

exact_by_count :
    (dtype wo bo : String) (count : ℕ) (signed : Bool) (z : ℤ)
    → (count ≡ 1) ⊎ ((count ≡ 2) ⊎ (count ≡ 4))
    → dtype_info value_error dtype ≡ ok (count, signed)
    → InRange count signed z
    → registers_to_int (encode_int count wo bo z) dtype wo bo ≡ ok z
exact_by_count dtype wo bo count false z (inl c) = rw c (one_unsigned dtype wo bo z)
exact_by_count dtype wo bo count true z (inl c) = rw c (one_signed dtype wo bo z)
exact_by_count dtype wo bo count false z (inr (inl c)) = rw c (two_unsigned dtype wo bo z)
exact_by_count dtype wo bo count true z (inr (inl c)) = rw c (two_signed dtype wo bo z)
exact_by_count dtype wo bo count false z (inr (inr c)) = rw c (four_unsigned dtype wo bo z)
exact_by_count dtype wo bo count true z (inr (inr c)) = rw c (four_signed dtype wo bo z)

-- Every value that a sized integer type can hold, written as two's-complement words in the word
-- order and byte order of the map, is read back as that value.
pub registers_to_int_exact :
    (dtype wo bo : String) (count : ℕ) (signed : Bool) (z : ℤ)
    → dtype_info value_error dtype ≡ ok (count, signed)
    → InRange count signed z
    → registers_to_int (encode_int count wo bo z) dtype wo bo ≡ ok z
registers_to_int_exact dtype wo bo count signed z e h =
    exact_by_count dtype wo bo count signed z (dtype_info_counts value_error dtype e) e h
