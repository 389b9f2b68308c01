-- ===== src/Server/Encode/Image.antt =====
-- dtsu_server.py: what the registers hold after `update_datastore`.
use nd45_dtsu666_converter.Canonical.{Values}
use nd45_dtsu666_converter.Base.{
  err, ok, some, inr, inl, String, Result, Result-cases, ◌>>=◌, lookup, Floats, Option-cases,
  string_eq, nat_eq, ◌∷◌, [], List, ◌∙◌, refl, ◌≡◌, All, length, ℕ,
}
use nd45_dtsu666_converter.Registers.{TargetPoint, TargetSide, FunctionCode}
use nd45_dtsu666_converter.Datastore.{Datastore, DatastoreLaws, Apart}
use nd45_dtsu666_converter.Server.Encode.{gather, encode_target_point, Write, write_all}

module _ {S : Type 0} ⦃ds : Datastore S⦄ (laws : DatastoreLaws ds) where
  abbrev pub Clear : FunctionCode → ℕ → ℕ → Write → Type 0
  Clear fc b n w = Apart w.function_code w.address (length w.registers) fc b n

  -- No two writes share a register.
  abbrev pub Separate : List Write → Type 0
  Separate [] = Unit
  Separate (w ∷ ws) = All (Clear w.function_code w.address (length w.registers)) ws × Separate ws

  pub write_all_apart :
      (s : S) (fc : FunctionCode) (b n : ℕ) (ws : List Write)
      → All (Clear fc b n) ws
      → ds.get_values (write_all s ws) fc b n ≡ ds.get_values s fc b n
  unfolding write_all
  write_all_apart s fc b n [] h = refl
  write_all_apart s fc b n (w ∷ ws) h =
      write_all_apart (ds.set_values s w.function_code w.address w.registers) fc b n ws h.1
      ∙ laws.get-set_apart s w.function_code fc w.address b n w.registers h.0

  abbrev pub Holds : S → Write → Type 0
  Holds s w = ds.get_values s w.function_code w.address (length w.registers) ≡ w.registers

  pub write_all-Holds : (s : S) (ws : List Write) → Separate ws → All (Holds (write_all s ws)) ws
  unfolding write_all
  write_all-Holds s [] h = tt
  write_all-Holds s (w ∷ ws) h =
      let next = ds.set_values s w.function_code w.address w.registers in
      (
        write_all_apart next w.function_code w.address (length w.registers) ws h.0
            ∙ laws.get-set s w.function_code w.address w.registers,
        write_all-Holds next ws h.1,
      )

-- The spans that the points of the maps occupy, two registers each, share no register: within a
-- map, as `_check_point_ranges_do_not_overlap` demands, and between maps.
module _ {F : Type 0} where
  abbrev pub Clears : TargetSide F × TargetPoint F → TargetSide F × TargetPoint F → Type 0
  Clears (s, p) (t, q) = Apart t.function_code q.addr 2 s.function_code p.addr 2

  abbrev pub Disjoint : List (TargetSide F × TargetPoint F) → Type 0
  Disjoint [] = Unit
  Disjoint (r ∷ rs) = All (Clears r) rs × Disjoint rs

module _ {F S : Type 0} ⦃fl : Floats F⦄ ⦃ds : Datastore S⦄ where
  -- The registers of a point hold the encoding of its canonical value.
  abbrev pub Serves : S → Values F → F → TargetSide F × TargetPoint F → Type 0
  Serves s canonical ct_ratio (side, pt) =
      (si : F) × (lookup pt.from_ canonical ≡ some si)
      × (encode_target_point si pt side ct_ratio
          ≡ ok (ds.get_values s side.function_code pt.addr 2))

module _ {F : Type 0} ⦃fl : Floats F⦄ (canonical : Values F) (ct_ratio : F) where
  -- The writes that a complete first loop has gathered, one for each point.
  abbrev pub Gathered : List (TargetSide F × TargetPoint F) → List Write → Type 0
  Gathered [] [] = Unit
  Gathered ((side, pt) ∷ rest) (w ∷ ws) =
      (w.function_code ≡ side.function_code)
      × (w.address ≡ pt.addr)
      × ((si : F) × (lookup pt.from_ canonical ≡ some si)
          × (encode_target_point si pt side ct_ratio ≡ ok w.registers))
      × Gathered rest ws
  Gathered _ _ = ⊥

  abbrev pub GatheredAll :
      List (TargetSide F × TargetPoint F) → Result (List Write × List String) → Type 0
  GatheredAll rounds (ok (ws, [])) = Gathered rounds ws
  GatheredAll rounds _ = Unit

  gather_step :
      (side : TargetSide F) (pt : TargetPoint F) (rest : List (TargetSide F × TargetPoint F))
      (si : F) (regs : List ℕ) (r : Result (List Write × List String))
      → lookup pt.from_ canonical ≡ some si
      → encode_target_point si pt side ct_ratio ≡ ok regs
      → GatheredAll rest r
      → GatheredAll ((side, pt) ∷ rest) (
          r >>= λ later. ok (
            record { function_code = side.function_code; address = pt.addr; registers = regs }
                ∷ later.0,
            later.1,
          ))
  gather_step side pt rest si regs (ok (ws, [])) f e h = (refl, refl, (si, f, e), h)
  gather_step side pt rest si regs (ok (ws, _ ∷ _)) f e h = tt
  gather_step side pt rest si regs (err x) f e h = tt

  gather_missing :
      (side : TargetSide F) (pt : TargetPoint F) (rest : List (TargetSide F × TargetPoint F))
      (r : Result (List Write × List String))
      → GatheredAll ((side, pt) ∷ rest) (r >>= λ later. ok (later.0, pt.from_ ∷ later.1))
  gather_missing side pt rest (ok _) = tt
  gather_missing side pt rest (err x) = tt

  pub gather-GatheredAll :
      (rounds : List (TargetSide F × TargetPoint F))
      → GatheredAll rounds (gather canonical ct_ratio rounds)
  gather-GatheredAll [] = tt
  gather-GatheredAll ((side, pt) ∷ rest) = elim (Option-cases (lookup pt.from_ canonical)) [
    | inl absent ↦
        rw (absent, GatheredAll) (gather_missing side pt rest (gather canonical ct_ratio rest))
    | inr (si, found) ↦ elim (Result-cases (encode_target_point si pt side ct_ratio)) [
      | inr (x, bad) ↦ rw (found, bad, GatheredAll) tt
      | inl (regs, good) ↦
          rw (found, good, GatheredAll)
            (gather_step side pt rest si regs (gather canonical ct_ratio rest) found good
              (gather-GatheredAll rest))
    ]
  ]
