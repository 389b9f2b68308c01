-- ===== src/StaticDebug/Complete.antt =====
-- static_debug.py: the keys of the sample of a bench test.
use nd45_dtsu666_converter.Registers.Map.{targets, RegisterMap, needed}
use nd45_dtsu666_converter.StaticDebug.{add_total, phases, get_item, zero_filled, Phase, add_powers}
use nd45_dtsu666_converter.Canonical.{get_zero, Values}
use nd45_dtsu666_converter.Base.{
  contains-insert, Bool-cases, key_error, err, ok, some, none, Option, inr, inl, ◌⊎◌, map_ok,
  lookup, is_some, All, all, arith, ◌∷◌, [], List, ◌||◌, ◌&&◌, not, false, true, Bool, ◌∙◌, ap,
  refl, ◌≡◌, String, contains-insert_eq, insert, contains, mem, any, Floats, string_eq, nat_eq,
  ◌==◌, if◌then◌else◌,
}

-- An apparent power of this phase is configured, and no output map asks for it.
abbrev pub is_stray : {F : Type 0} → RegisterMap F → Values F → Phase → Bool
is_stray m configured p = contains p.s_key configured && not (mem p.s_key (needed (targets m)))

module _ {F : Type 0} ⦃fl : Floats F⦄ (configured : Values F) where
  zero_filled-keys :
      (k : String) (names : List String) → contains k (zero_filled configured names) ≡ mem k names
  zero_filled-keys k [] = refl
  zero_filled-keys k (n ∷ ns) =
      contains-insert_eq k n (get_zero configured n) (zero_filled configured ns)
      ∙ ap (λ t. k == n || t) (zero_filled-keys k ns)

  contains-insert_if :
      (k j : String) (v : F) (t : Bool) (vs : Values F)
      → contains k (if t then vs else insert j v vs) ≡ (contains k vs || k == j && not t)
  contains-insert_if k j v true vs = ground arith
  contains-insert_if k j v false vs = ground (arith, contains-insert_eq k j v vs)

  add_powers-keys :
      (k : String) (ps : List Phase) (vs : Values F)
      → contains k (add_powers configured ps vs)
        ≡ (contains k vs || any (λ p. k == p.s_key && not (contains p.s_key configured)) ps)
  add_powers-keys k [] vs = ground arith
  add_powers-keys k (p ∷ ps) vs =
      let power = fl.abs (fl.mul (get_zero vs p.u_key) (get_zero vs p.i_key)) in
      add_powers-keys k ps (if contains p.s_key configured then vs else insert p.s_key power vs)
      ∙ ground (arith, contains-insert_if k p.s_key power (contains p.s_key configured) vs)

  module _ (m : RegisterMap F) where
    abbrev pub powered : Values F
    powered = add_powers configured phases (zero_filled configured (needed (targets m)))

    pub powered-keys :
        (k : String)
        → contains k powered ≡ (
            mem k (needed (targets m))
            || any (λ p. k == p.s_key && not (contains p.s_key configured)) phases)
    powered-keys k =
        add_powers-keys k phases (zero_filled configured (needed (targets m)))
        ∙ ap (λ t. t || any (λ p. k == p.s_key && not (contains p.s_key configured)) phases)
            (zero_filled-keys k (needed (targets m)))

    -- The value of a phase is there unless it is stray.
    powered-phases : All (λ p. contains p.s_key powered ≡ not (is_stray m configured p)) phases
    powered-phases = (
      powered-keys "s_l1" ∙ ground arith,
      (powered-keys "s_l2" ∙ ground arith, (powered-keys "s_l3" ∙ ground arith, tt)),
    )

  get_item-cases :
      (vs : Values F) (k : String)
      → (contains k vs ≡ true) × ((v : F) × (get_item vs k ≡ ok v))
        ⊎ (contains k vs ≡ false) × (get_item vs k ≡ err key_error)
  get_item-cases vs k = go (lookup k vs)
    where
      go :
          (o : Option F)
          → (is_some o ≡ true)
              × ((v : F) × (elim o [ none ↦ err key_error | some v ↦ ok v ] ≡ ok v))
            ⊎ (is_some o ≡ false)
              × (elim o [ none ↦ err key_error | some v ↦ ok v ] ≡ err key_error)
      go none = inr (refl, refl)
      go (some v) = inl (refl, (v, refl))

  -- Reading the values of the phases fails exactly where one is missing.
  map_ok-get_item :
      (vs : Values F) (ps : List Phase)
      → (all (λ p. contains p.s_key vs) ps ≡ true)
          × ((xs : List F) × (map_ok (λ p. get_item vs p.s_key) ps ≡ ok xs))
        ⊎ (all (λ p. contains p.s_key vs) ps ≡ false)
          × (map_ok (λ p. get_item vs p.s_key) ps ≡ err key_error)
  map_ok-get_item vs [] = inl (refl, ([], refl))
  map_ok-get_item vs (p ∷ ps) = elim (get_item-cases vs p.s_key) [
    | inr (missing, e) ↦ inr (rw missing refl, rw e refl)
    | inl (there, (v, e)) ↦ elim (map_ok-get_item vs ps) [
      | inl (rest, (xs, f)) ↦ inl (rw there rest, (v ∷ xs, rw e (rw f refl)))
      | inr (rest, f) ↦ inr (rw there rest, rw e (rw f refl))
    ]
  ]

  module _ (m : RegisterMap F) where
    -- No phase is missing exactly if none is stray.
    powered-all :
        all (λ p. contains p.s_key (powered m)) phases ≡ not (any (is_stray m configured) phases)
    powered-all = let (a, (b, (c, _))) = powered-phases m in ground (arith, a, b, c)

    pub add_total-cases :
        ((contains "s_total" configured ≡ false)
          × (any (is_stray m configured) phases ≡ true)
          × (add_total configured (powered m) ≡ err key_error))
        ⊎ ((vs : Values F) × (contains "s_total" configured
                || not (any (is_stray m configured) phases)
              ≡ true)
            × (add_total configured (powered m) ≡ ok vs)
            × ((k : String) → contains k (powered m) ≡ true → contains k vs ≡ true))
    add_total-cases = elim (Bool-cases (contains "s_total" configured)) [
      | inl given ↦ inr (powered m, rw given refl, rw given refl, λ k h. h)
      | inr not_given ↦ elim (map_ok-get_item (powered m) phases) [
        | inl (there, (xs, e)) ↦ inr (
          insert "s_total" (fl.sum xs) (powered m),
          ground (arith, powered-all),
          rw not_given (rw e refl),
          λ k h. contains-insert k "s_total" (fl.sum xs) (powered m) h,
        )
        | inr (missing, e) ↦ inl (not_given, ground (arith, powered-all), rw not_given (rw e refl))
      ]
    ]
