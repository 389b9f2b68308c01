-- ===== src/Codec.antt =====
-- src/nd45_dtsu666/codec.py: float32 and sized integers as lists of Modbus register words, under
-- both word orders and both byte orders. A word is a number below 65536, a byte one below 256.
-- `a >> 8` and `a & 0xFF` are written as quotient and remainder, and `(a << 8) | b` at a byte `b`
-- as a sum. An order is a text, and every text but "big" means little-endian, as in the source.
pub mod Bytes
pub mod Ints
pub mod Points
use nd45_dtsu666_converter.Base.{
  ℕ, suc, ◌+◌, ◌-◌, ◌*◌, ◌/◌, ◌%◌, ◌^◌, String, Bool, true, false, not, ◌&&◌, ◌||◌, Option, none,
  some, List, [], ◌∷◌, ◌++◌, map, reverse, ltb, leb, if◌then◌else◌, ◌==◌, length, take, drop, set,
  Dict, lookup, Result, ok, err, value_error, key_error, index_error, ◌>>=◌, ◌>>◌, raise_if, map_ok,
  Floats, Exc, string_eq,
}
use nd45_dtsu666_converter.Base.Int.{ℤ, pos, sub_ℕ, eqb_ℤ}

-- dtype ↦ (register count, signed)
abbrev pub int_dtypes : Dict String (ℕ × Bool)
int_dtypes =
    ("u16", (1, false))
    ∷ ("i16", (1, true))
    ∷ ("u32", (2, false))
    ∷ ("i32", (2, true))
    ∷ ("u64", (4, false))
    ∷ ("i64", (4, true))
    ∷ []

-- `INT_DTYPES[dtype]`, with the exception that stands for a missing key
abbrev pub dtype_info : Exc → String → Result (ℕ × Bool)
dtype_info e dtype = elim (lookup dtype int_dtypes) [ none ↦ err e | some info ↦ ok info ]

unfoldable pub register_width : String → Result ℕ
register_width dtype =
    if dtype == "float32" then ok 2 else dtype_info value_error dtype >>= λ info. ok info.0

unfoldable pub word_bytes : ℕ → String → List ℕ
word_bytes reg byte_order =
    if byte_order == "big"
    then (reg / 256 % 256) ∷ (reg % 256) ∷ []
    else (reg % 256) ∷ (reg / 256 % 256) ∷ []

unfoldable pub bytes_word : List ℕ → String → Result ℕ
bytes_word (a ∷ b ∷ _) byte_order = ok (if byte_order == "big" then a * 256 + b else b * 256 + a)
bytes_word _ byte_order = err index_error

-- `words[0] + words[1] if word_order == "big" else words[1] + words[0]`
abbrev pub join_words : List (List ℕ) → String → Result (List ℕ)
join_words (w0 ∷ w1 ∷ _) word_order = ok (if word_order == "big" then w0 ++ w1 else w1 ++ w0)
join_words _ word_order = err index_error

-- `int.from_bytes(raw, "big")`, after the bytes that made `acc`
abbrev pub from_bytes : ℕ → List ℕ → ℕ
from_bytes acc [] = acc
from_bytes acc (b ∷ bs) = from_bytes (acc * 256 + b) bs

-- `int.from_bytes(raw, "big", signed=signed)`
abbrev pub int_from_bytes : List ℕ → Bool → ℤ
int_from_bytes raw signed =
    let n = from_bytes 0 raw in
    if signed && leb (2 ^ (8 * length raw - 1)) n then sub_ℕ n (2 ^ (8 * length raw)) else pos n

-- `b"".join(_word_bytes(w, byte_order) for w in words)`
abbrev pub join_bytes : List ℕ → String → List ℕ
join_bytes [] byte_order = []
join_bytes (w ∷ ws) byte_order = word_bytes w byte_order ++ join_bytes ws byte_order

unfoldable pub registers_to_int : List ℕ → String → String → String → Result ℤ
registers_to_int regs dtype word_order byte_order = do
  info ← dtype_info value_error dtype
  raise_if (ltb (length regs) info.0) value_error
  let words = take info.0 regs
  let ordered = if word_order == "big" then words else reverse words
  ok (int_from_bytes (join_bytes ordered byte_order) info.1)

unfoldable pub int_sentinel : String → Result ℕ
int_sentinel dtype = do
  info ← dtype_info key_error dtype
  let bits = info.0 * 16
  ok (if info.1 then 2 ^ (bits - 1) - 1 else 2 ^ bits - 1)

unfoldable pub int_is_invalid : ℤ → String → Result Bool
unfolding int_sentinel
int_is_invalid raw dtype = do s ← int_sentinel dtype; ok (eqb_ℤ raw (pos s))

module _ {F : Type 0} ⦃fl : Floats F⦄ where
  -- `raw * scale * sign + offset`
  abbrev pub scale_raw : F → F → ℤ → F → F
  scale_raw raw scale sign offset = fl.add (fl.mul (fl.mul raw scale) (fl.of_int sign)) offset

  unfoldable pub registers_to_float : List ℕ → String → String → Result F
  registers_to_float regs word_order byte_order = do
    raw ← join_words (map (λ r. word_bytes r byte_order) regs) word_order
    ok (fl.unpack raw)

  unfoldable pub float_to_registers : F → String → String → Result (List ℕ)
  float_to_registers value word_order byte_order = do
    raise_if (not (fl.is_finite value) || fl.lt fl.lit_float32_max (fl.abs value)) value_error
    let raw = fl.pack value
    let hi = take 2 raw
    let lo = take 2 (drop 2 raw)
    let words = if word_order == "big" then hi ∷ lo ∷ [] else lo ∷ hi ∷ []
    map_ok (λ w. bytes_word w byte_order) words

  unfoldable pub decode_point : List ℕ → F → ℤ → F → String → String → Result F
  decode_point regs scale sign offset word_order byte_order = do
    raw ← registers_to_float regs word_order byte_order
    ok (scale_raw raw scale sign offset)

  unfoldable pub encode_point : F → F → ℤ → F → String → String → Bool → Result (List ℕ)
  encode_point si scale sign offset word_order byte_order zero_low_word = do
    registers ←
        float_to_registers (fl.add (fl.mul (fl.mul si (fl.of_int sign)) scale) offset) word_order
          byte_order
    let low_index = if word_order == "big" then 1 else 0
    ok (if zero_low_word then set registers low_index 0 else registers)

  -- `v * f for v, f in zip(values, factors)`
  abbrev pub products : List F → List F → List F
  products (v ∷ vs) (f ∷ fs) = fl.mul v f ∷ products vs fs
  products _ _ = []

  unfoldable pub compose : List F → List F → F
  compose values factors = fl.sum (products values factors)

  unfoldable pub decode_int_point : List ℕ → String → F → ℤ → F → String → String → Result F
  decode_int_point regs dtype scale sign offset word_order byte_order = do
    raw ← registers_to_int regs dtype word_order byte_order
    invalid ← int_is_invalid raw dtype
    ok (if invalid then fl.nan else scale_raw (fl.of_int raw) scale sign offset)
