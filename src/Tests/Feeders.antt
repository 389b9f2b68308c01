-- ===== src/Tests/Feeders.antt =====
-- Two e2TANGO controllers, polled in either order.
use nd45_dtsu666_converter.Pollers.Etango.Devices.{etango_poll-Perm}
use nd45_dtsu666_converter.Pollers.Etango.{DeviceLink}
use nd45_dtsu666_converter.Canonical.{compute_derived, Values}
use nd45_dtsu666_converter.Base.Int.{negsuc, pos, ℤ}
use mathlib.Core.List.{Permᴰ}
use nd45_dtsu666_converter.Tests.Sources.{twos, feeder, feeders_polled}
use nd45_dtsu666_converter.Tests.Numbers.{add_ℤ, lift_num, undefined, sum_num, num_floats, num, Num}
use nd45_dtsu666_converter.Pollers.Etango
use nd45_dtsu666_converter.Base.{
  ok, arith, ◌∷◌, [], List, true, ◌∙◌, ap, refl, ◌≡◌, String, lookup, string_eq, nat_eq,
}

add_ℤ_left_comm : (a b c : ℤ) → add_ℤ a (add_ℤ b c) ≡ add_ℤ b (add_ℤ a c)
add_ℤ_left_comm (pos a) (pos b) (pos c) = ground arith
add_ℤ_left_comm (pos a) (pos b) (negsuc c) = ground arith
add_ℤ_left_comm (pos a) (negsuc b) (pos c) = ground arith
add_ℤ_left_comm (pos a) (negsuc b) (negsuc c) = ground arith
add_ℤ_left_comm (negsuc a) (pos b) (pos c) = ground arith
add_ℤ_left_comm (negsuc a) (pos b) (negsuc c) = ground arith
add_ℤ_left_comm (negsuc a) (negsuc b) (pos c) = ground arith
add_ℤ_left_comm (negsuc a) (negsuc b) (negsuc c) = ground arith

add_num_left_comm :
    (x y z : Num) → lift_num add_ℤ x (lift_num add_ℤ y z) ≡ lift_num add_ℤ y (lift_num add_ℤ x z)
add_num_left_comm (num a) (num b) (num c) = ap num (add_ℤ_left_comm a b c)
add_num_left_comm (num a) (num b) undefined = refl
add_num_left_comm (num a) undefined z = refl
add_num_left_comm undefined (num b) z = go z
  where
    go : (z : Num) → undefined ≡ lift_num add_ℤ (num b) undefined
    go z = refl
add_num_left_comm undefined undefined z = refl

sum_num-Perm : {xs ys : List Num} → Permᴰ xs ys → sum_num xs ≡ sum_num ys
sum_num-Perm Permᴰ.nil = refl
sum_num-Perm (Permᴰ.cons {a} {b} {l₁} {l₂} e p) = cc (e, sum_num-Perm p)
sum_num-Perm (Permᴰ.swap {a} {b} {a'} {b'} {l} e f) = add_num_left_comm a b (sum_num l) ∙ cc (e, f)
sum_num-Perm (Permᴰ.trans p q) = sum_num-Perm p ∙ sum_num-Perm q

abbrev swapped_feeders : List DeviceLink
swapped_feeders =
    record { client = twos; unit_id = 2; aggregate = true }
    ∷ record { client = twos; unit_id = 1; aggregate = true }
    ∷ []

etango_poll-Perm_example :
    (d : Values Num) × (Etango.poll_once swapped_feeders feeder ≡ ok d)
    × ((key : String)
        → lookup key d ≡ lookup key (compute_derived (("p_total", num (pos 196611)) ∷ [])))
etango_poll-Perm_example =
    etango_poll-Perm (λ xs ys p. ap ok (sum_num-Perm p)) feeder (Permᴰ.swap refl refl)
      feeders_polled
