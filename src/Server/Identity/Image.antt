-- ===== src/Server/Identity/Image.antt =====
-- dtsu_server.py: how long a static value is, and writes one after the other.
use nd45_dtsu666_converter.Registers.Map.{
  number, text, StaticType, check_static_value, count_of, register_count, StaticIdentityPoint,
  uint32, check_static_shape, ascii, StaticValue,
}
use nd45_dtsu666_converter.Datastore.{Datastore}
use nd45_dtsu666_converter.Base.Int.{negsuc, pos}
use nd45_dtsu666_converter.Base.{
  inr, inl, Bool-cases, ok, arith, ◌++◌, ◌∷◌, [], List, some, none, Option, refl, ◌≡◌, String, ◌*◌,
  ◌-◌, ◌+◌, suc, zero, length-append, replicate, length, ℕ, string_eq, nat_eq, ◌==◌,
}
use nd45_dtsu666_converter.Server.Encode.{Write, write_all}
use nd45_dtsu666_converter.Server.Identity.{words_of, pair_bytes, DtsuConf, static_words, ljust}

-- Writing two lists one after the other is writing both.
pub write_all_append :
    {S : Type 0} ⦃ds : Datastore S⦄ (s : S) (xs ys : List Write)
    → write_all s (xs ++ ys) ≡ write_all (write_all s xs) ys
unfolding write_all
write_all_append s [] ys = refl
write_all_append ⦃ds⦄ s (x ∷ xs) ys =
    write_all_append (ds.set_values s x.function_code x.address x.registers) xs ys

length-replicate : (n a : ℕ) → length (replicate n a) ≡ n
length-replicate zero a = refl
length-replicate (suc n) a = ground (arith, length-replicate n a)

pair_bytes-length :
    (n : ℕ) (bs : List ℕ)
    → length bs ≡ n * 2
    → (words : List ℕ) × (pair_bytes bs ≡ ok words) × (length words ≡ n)
unfolding pair_bytes
pair_bytes-length zero [] h = ([], refl, refl)
pair_bytes-length (suc n) (a ∷ b ∷ rest) h =
    let (words, e, l) = pair_bytes-length n rest (omega arith) in
    ((a * 256 + b) ∷ words, rw e refl, ground arith)
pair_bytes-length zero (_ ∷ _) h = absurd (omega arith)
pair_bytes-length (suc n) [] h = absurd (omega arith)
pair_bytes-length (suc n) (_ ∷ []) h = absurd (omega arith)

-- A static value that passes the check of the map is written without an exception, and fills as many
-- registers as its point declares.
pub static_words-length :
    (name : String) (p : StaticIdentityPoint) (cfg : Option DtsuConf)
    → check_static_shape p ≡ ok tt
    → (words : List ℕ) × (static_words name p.type p.static_value (register_count p) cfg ≡ ok words)
      × (length words ≡ register_count p)
unfolding check_static_shape register_count
static_words-length name p cfg h = by_type p.type p.static_value p.length_ cfg h
  where
    by_type :
        (t : StaticType) (v : StaticValue) (l : Option ℕ) (c : Option DtsuConf)
        → check_static_value t v l ≡ ok tt
        → (words : List ℕ) × (static_words name t v (count_of t l) c ≡ ok words)
          × (length words ≡ count_of t l)
    by_type ascii (text cs) (some n) c h =
        let (words, e, l) = pair_bytes-length n (ljust cs (n * 2)) (
          ground (
            arith,
            length-append cs (replicate (n * 2 - length cs) 0),
            length-replicate (n * 2 - length cs) 0,
          )) in
        (words, ground arith, l)
    by_type ascii (text cs) none c h = absurd (ground arith)
    by_type ascii (number z) l c h = absurd (ground arith)
    by_type uint32 (number (pos n)) none none h = (words_of n, refl, refl)
    by_type uint32 (number (pos n)) none (some c) h =
        elim (Bool-cases (name == "handshake_magic")) [
          | inl magic ↦ (words_of c.identity.handshake_magic, rw magic refl, refl)
          | inr plain ↦ (words_of n, rw plain refl, refl)
        ]
    by_type uint32 (number (pos n)) (some l) c h = absurd (ground arith)
    by_type uint32 (number (negsuc n)) l c h = absurd (ground arith)
    by_type uint32 (text cs) l c h = absurd (ground arith)
