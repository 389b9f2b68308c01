-- ===== src/Codec/Bytes.antt =====
-- codec.py: a word and its two bytes.
use nd45_dtsu666_converter.Base.{ℕ, ◌<◌, ◌≡◌, String, arith, ok}
use nd45_dtsu666_converter.Codec.{word_bytes, bytes_word}

-- Splitting a register into bytes and joining them again gives the register.
pub bytes_word-word_bytes :
    (reg : ℕ) (byte_order : String)
    → reg < 65536
    → bytes_word (word_bytes reg byte_order) byte_order ≡ ok reg
unfolding bytes_word word_bytes
bytes_word-word_bytes reg byte_order h = ground arith
