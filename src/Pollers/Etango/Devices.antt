-- ===== src/Pollers/Etango/Devices.antt =====
-- etango_poller.py: a poll, and the order of its controllers.
use nd45_dtsu666_converter.Pollers.Etango.Order.{combine-Perm}
use nd45_dtsu666_converter.Registers.{SourceSide}
use nd45_dtsu666_converter.Canonical.{compute_derived, Values, get_zero}
use mathlib.Core.List.{Permᴰ}
use mathlib.Core.List.Permᴰ as Reordering
use mathlib.Core.Path.{subst}
use nd45_dtsu666_converter.Pollers.Etango.{
  DeviceLink, aggregating, combine, device_values, poll_once,
}
use nd45_dtsu666_converter.Base.{
  ok, ◌∷◌, [], List, false, true, Bool, ◌∙◌, ap, sym, refl, ◌≡◌, String, Result, bind-ok, map_ok,
  lookup-insert, insert, lookup, Floats, string_eq, nat_eq, if◌then◌else◌,
}

module _ {F : Type 0} ⦃fl : Floats F⦄ where
  -- one controller's sample in front of the others, if it is combined
  abbrev if_combined : Bool → Values F → List (Values F) → List (Values F)
  if_combined t vs rest = if t then vs ∷ rest else rest

  if_combined-Perm :
      (t : Bool) (vs : Values F) {xs ys : List (Values F)}
      → Permᴰ xs ys
      → Permᴰ (if_combined t vs xs) (if_combined t vs ys)
  if_combined-Perm true vs p = Permᴰ.cons refl p
  if_combined-Perm false vs p = p

  if_combined-swap :
      (t u : Bool) (vs ws : Values F) (xs : List (Values F))
      → Permᴰ (if_combined t vs (if_combined u ws xs)) (if_combined u ws (if_combined t vs xs))
  if_combined-swap true true vs ws xs = Permᴰ.swap refl refl
  if_combined-swap true false vs ws xs = Reordering.refl (vs ∷ xs)
  if_combined-swap false u vs ws xs = Reordering.refl (if_combined u ws xs)

  map_ok-cons :
      (f : DeviceLink → Result (Values F)) (a : DeviceLink) (l : List DeviceLink) (y : Values F)
      (ys : List (Values F))
      → f a ≡ ok y
      → map_ok f l ≡ ok ys
      → map_ok f (a ∷ l) ≡ ok (y ∷ ys)
  map_ok-cons f a l y ys e h = rw e (rw h refl)

  -- Controllers that are read in one order are read in another, with the same samples.
  device_values-Perm :
      (source : SourceSide F) {ds es : List DeviceLink} {xs : List (Values F)}
      → Permᴰ ds es
      → map_ok (device_values source) ds ≡ ok xs
      → (ys : List (Values F)) × (map_ok (device_values source) es ≡ ok ys)
        × Permᴰ (aggregating xs ds) (aggregating ys es)
  device_values-Perm source {xs} Permᴰ.nil h = ([], refl, agg xs)
    where
      agg : (xs : List (Values F)) → Permᴰ (aggregating xs []) []
      agg [] = Permᴰ.nil
      agg (_ ∷ _) = Permᴰ.nil
  device_values-Perm source {xs} (Permᴰ.cons {a} {b} {l₁} {l₂} e p) h =
      let (y, first, h) = bind-ok (device_values source a) _ h in
      let (rest, more, h) = bind-ok (map_ok (device_values source) l₁) _ h in
      let same : y ∷ rest ≡ xs = cc in
      let (ys, done, q) = device_values-Perm source p more in
      (
        y ∷ ys,
        map_ok-cons (device_values source) b l₂ y ys (ap (device_values source) (sym e) ∙ first)
            done,
        subst (λ zs. Permᴰ (aggregating zs (a ∷ l₁)) (aggregating (y ∷ ys) (b ∷ l₂))) same
            (subst (λ z. Permᴰ (aggregating (y ∷ rest) (a ∷ l₁)) (aggregating (y ∷ ys) (z ∷ l₂))) e
              (if_combined-Perm a.aggregate y q)),
      )
  device_values-Perm source {xs} (Permᴰ.swap {a} {b} {a'} {b'} {l} e f) h =
      let (y, first, h) = bind-ok (device_values source a) _ h in
      let (rest, more, h) = bind-ok (map_ok (device_values source) (b ∷ l)) _ h in
      let same : y ∷ rest ≡ xs = cc in
      let (z, second, more) = bind-ok (device_values source b) _ more in
      let (tail, last, more) = bind-ok (map_ok (device_values source) l) _ more in
      let again : z ∷ tail ≡ rest = cc in
      (
        z ∷ y ∷ tail,
        map_ok-cons (device_values source) a' (b' ∷ l) z (y ∷ tail)
            (ap (device_values source) (sym f) ∙ second)
            (map_ok-cons (device_values source) b' l y tail
              (ap (device_values source) (sym e) ∙ first) last),
        subst (λ zs. Permᴰ (aggregating zs (a ∷ b ∷ l)) (aggregating (z ∷ y ∷ tail) (a' ∷ b' ∷ l)))
            (ap (λ r. y ∷ r) again ∙ same)
            (subst
              (λ c.
                Permᴰ (aggregating (y ∷ z ∷ tail) (a ∷ b ∷ l))
                  (aggregating (z ∷ y ∷ tail) (a' ∷ c ∷ l)))
              e
              (subst
                (λ c.
                  Permᴰ (aggregating (y ∷ z ∷ tail) (a ∷ b ∷ l))
                    (aggregating (z ∷ y ∷ tail) (c ∷ a ∷ l)))
                f (if_combined-swap a.aggregate b.aggregate y z (aggregating tail l)))),
      )
  device_values-Perm source (Permᴰ.trans p q) h =
      let (ys, middle, first) = device_values-Perm source p h in
      let (zs, done, second) = device_values-Perm source q middle in
      (zs, done, Permᴰ.trans first second)

  chained :
      (source : SourceSide F) (es : List DeviceLink) (ys : List (Values F)) (other : Values F)
      → map_ok (device_values source) es ≡ ok ys
      → combine (aggregating ys es) source ≡ ok other
      → poll_once es source ≡ ok (compute_derived other)
  unfolding poll_once
  chained source es ys other e f = rw e (rw f refl)

  -- Samples with the same value at each point have the same energy aliases.
  compute_derived-lookup :
      (vs ws : Values F)
      → ((key : String) → lookup key vs ≡ lookup key ws)
      → (key : String) → lookup key (compute_derived vs) ≡ lookup key (compute_derived ws)
  unfolding compute_derived
  compute_derived-lookup vs ws h key =
      let imp : get_zero vs "imp_energy_total" ≡ get_zero ws "imp_energy_total" =
        rw (h "imp_energy_total", get_zero) refl in
      let exp : get_zero vs "exp_energy_total" ≡ get_zero ws "exp_energy_total" =
        rw (h "exp_energy_total", get_zero) refl in
      added "net_exp_energy_total" _ _ exp _ _
        (added "net_imp_energy_total" _ _ imp _ _
          (added "active_energy_total" _ _ (cc (imp, exp)) vs ws h))
        key
    where
      added :
          (k : String) (v w : F)
          → v ≡ w
          → (vs ws : Values F) → ((key : String) → lookup key vs ≡ lookup key ws)
          → (key : String) → lookup key (insert k v vs) ≡ lookup key (insert k w ws)
      added k v w e vs ws h key =
          lookup-insert key k v vs ∙ cc (e, h key) ∙ sym (lookup-insert key k w ws)

  -- If `math.fsum` does not depend on the order of what it sums up (it rounds the exact sum), the sample of a poll does not
  -- depend on the order of the controllers: a poll that succeeds in one order succeeds in any other,
  -- with the same value at each point.
  pub etango_poll-Perm :
      (fsum_perm : (xs ys : List F) → Permᴰ xs ys → fl.fsum xs ≡ fl.fsum ys) (source : SourceSide F)
      {ds es : List DeviceLink} {c : Values F}
      → Permᴰ ds es
      → poll_once ds source ≡ ok c
      → (d : Values F) × (poll_once es source ≡ ok d)
        × ((key : String) → lookup key d ≡ lookup key c)
  unfolding poll_once
  etango_poll-Perm fsum_perm source {ds} {es} {c} p h =
      let (xs, read, h) = bind-ok (map_ok (device_values source) ds) _ h in
      let (combined, made, h) = bind-ok (combine (aggregating xs ds) source) _ h in
      let (ys, again, q) = device_values-Perm source p read in
      let whole : compute_derived combined ≡ c = cc in
      let (other, same, equal) = combine-Perm fsum_perm source q made in
      (
        compute_derived other,
        chained source es ys other again same,
        λ key. compute_derived-lookup other combined equal key ∙ ap (lookup key) whole,
      )
