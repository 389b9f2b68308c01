-- ===== src/Tests/Codec.antt =====
-- Register words at concrete values.
use nd45_dtsu666_converter.Codec.Ints.{registers_to_int_exact, encode_int}
use nd45_dtsu666_converter.Codec.{
  decode_int_point, float_to_registers, scale_raw, registers_to_int, registers_to_float,
}
use nd45_dtsu666_converter.Base.Int.{negsuc, pos, eqb_ℤ}
use nd45_dtsu666_converter.Base.{ok, arith, false, true, refl, ◌≡◌, ◌>>=◌, if◌then◌else◌}
use nd45_dtsu666_converter.Codec.Points.{
  registers_to_float-float_to_registers, decode_int_point_exact, top,
}
use nd45_dtsu666_converter.Tests.Numbers.{undefined, num_floats, num_laws, num}

registers_to_int_example :
    registers_to_int (encode_int 2 "little" "big" (negsuc 69999)) "i32" "little" "big"
    ≡ ok (negsuc 69999)
registers_to_int_example =
    registers_to_int_exact "i32" "little" "big" 2 true (negsuc 69999) refl (ground arith)

decode_int_point_example :
    decode_int_point
      (encode_int 1 "big" "big" (pos 65535))
      "u16"
      (num (pos 2))
      (pos 1)
      (num (pos 0))
      "big"
      "big"
    ≡ ok (
        if eqb_ℤ (pos 65535) (pos (top 1 false))
        then undefined
        else scale_raw (num (pos 65535)) (num (pos 2)) (pos 1) (num (pos 0)))
decode_int_point_example =
    decode_int_point_exact "u16" "big" "big" 1 false (pos 65535) (pos 1) (num (pos 2)) (num (pos 0))
      refl (ground arith)

registers_to_float_example :
    (float_to_registers (num (pos 70000)) "little" "big" >>= λ regs.
    registers_to_float regs "little" "big")
    ≡ ok (num (pos 70000))
registers_to_float_example =
    registers_to_float-float_to_registers num_laws (num (pos 70000)) "little" "big" refl refl
