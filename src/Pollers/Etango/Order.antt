-- ===== src/Pollers/Etango/Order.antt =====
-- etango_poller.py: the combination of samples, and the order that they come in.
use nd45_dtsu666_converter.Registers.{SourceSide}
use nd45_dtsu666_converter.Pollers.Etango.{
  combine, combine_key, combine_keys, aggregate_mode, by_mode, readings, add_keys, all_keys,
}
use nd45_dtsu666_converter.Canonical.{Values}
use mathlib.Core.List.{Permᴰ}
use mathlib.Core.List.Permᴰ as Reordering
use mathlib.Core.Path.{subst}
use nd45_dtsu666_converter.Base.{
  mem_self, All-imp, ok, false, true, ◌⊎◌, sym, bind-ok, ◌>>=◌, lookup-insert, insert, All, ◌==◌,
  arith, ◌++◌, ◌∷◌, [], List, some, none, Option, ◌||◌, Bool, inr, inl, ◌∙◌, ap, refl, ◌≡◌, String,
  suc, mem-append, contains, lookup, keys, mem, any, Floats, Bool-cases, string_eq, nat_eq, length,
}

module _ {A : Type 0} where
  length-Perm : {xs ys : List A} → Permᴰ xs ys → length xs ≡ length ys
  length-Perm Permᴰ.nil = refl
  length-Perm (Permᴰ.cons e p) = ap suc (length-Perm p)
  length-Perm (Permᴰ.swap e f) = refl
  length-Perm (Permᴰ.trans p q) = length-Perm p ∙ length-Perm q

  any-Perm : (f : A → Bool) {xs ys : List A} → Permᴰ xs ys → any f xs ≡ any f ys
  any-Perm f Permᴰ.nil = refl
  any-Perm f (Permᴰ.cons {a} {b} {l₁} {l₂} e p) =
      let same : f a ≡ f b = ap f e in ground (arith, same, any-Perm f p)
  any-Perm f (Permᴰ.swap {a} {b} {a'} {b'} {l} e g) =
      let one : f a ≡ f b' = ap f e in let two : f b ≡ f a' = ap f g in ground (arith, one, two)
  any-Perm f (Permᴰ.trans p q) = any-Perm f p ∙ any-Perm f q

module _ {F : Type 0} where
  -- one controller's reading in front of the others
  abbrev with_reading : Option F → List F → List F
  with_reading o xs = elim o [ none ↦ xs | some v ↦ v ∷ xs ]

  with_reading-Perm :
      (o : Option F) {xs ys : List F} → Permᴰ xs ys → Permᴰ (with_reading o xs) (with_reading o ys)
  with_reading-Perm none p = p
  with_reading-Perm (some v) p = Permᴰ.cons refl p

  with_reading-swap :
      (o q : Option F) (xs : List F)
      → Permᴰ (with_reading o (with_reading q xs)) (with_reading q (with_reading o xs))
  with_reading-swap none q xs = Reordering.refl (with_reading q xs)
  with_reading-swap (some v) none xs = Reordering.refl (v ∷ xs)
  with_reading-swap (some v) (some w) xs = Permᴰ.swap refl refl

  mem-keys : (key : String) (vs : Values F) → mem key (keys vs) ≡ contains key vs
  mem-keys key [] = refl
  mem-keys key ((k, v) ∷ vs) = ground (arith, mem-keys key vs)

mem-add_keys :
    (key : String) (new ks : List String) → mem key (add_keys new ks) ≡ (mem key ks || mem key new)
mem-add_keys key [] ks = ground arith
mem-add_keys key (n ∷ new) ks = elim (Bool-cases (mem n ks)) [
  | inl old ↦ rw old (ground (arith, mem-add_keys key new ks, string_eq.beq_iff key n, old))
  | inr fresh ↦
      rw fresh (mem-add_keys key new (ks ++ n ∷ []) ∙ ground (arith, mem-append key ks (n ∷ [])))
]

module _ {F : Type 0} ⦃fl : Floats F⦄ where
  readings-Perm :
      (key : String) {ds es : List (Values F)}
      → Permᴰ ds es
      → Permᴰ (readings key ds) (readings key es)
  readings-Perm key Permᴰ.nil = Permᴰ.nil
  readings-Perm key (Permᴰ.cons {a} {b} {l₁} {l₂} e p) =
      subst (λ z. Permᴰ (readings key (a ∷ l₁)) (readings key (z ∷ l₂))) e
        (with_reading-Perm (lookup key a) (readings-Perm key p))
  readings-Perm key (Permᴰ.swap {a} {b} {a'} {b'} {l} e f) =
      subst (λ z. Permᴰ (readings key (a ∷ b ∷ l)) (readings key (a' ∷ z ∷ l))) e
        (subst (λ z. Permᴰ (readings key (a ∷ b ∷ l)) (readings key (z ∷ a ∷ l))) f
          (with_reading-swap (lookup key a) (lookup key b) (readings key l)))
  readings-Perm key (Permᴰ.trans p q) = Permᴰ.trans (readings-Perm key p) (readings-Perm key q)

  mem-all_keys :
      (key : String) (ds : List (Values F)) (ks : List String)
      → mem key (all_keys ds ks) ≡ (mem key ks || any (λ vs. contains key vs) ds)
  mem-all_keys key [] ks = ground arith
  mem-all_keys key (vs ∷ ds) ks =
      mem-all_keys key ds (add_keys (keys vs) ks)
      ∙ ground (arith, mem-add_keys key (keys vs) ks, mem-keys key vs)

  -- What a combination holds: the value of each of its keys, and what it started with elsewhere.
  combine_keys-lookup :
      (ds : List (Values F)) (source : SourceSide F) (ks : List String) (acc : Values F)
      {c : Values F}
      → combine_keys ds source ks acc ≡ ok c
      → (key : String)
      → ((mem key ks ≡ true)
          × ((v : F) × (combine_key ds source key ≡ ok v) × (lookup key c ≡ some v)))
        ⊎ ((mem key ks ≡ false) × (lookup key c ≡ lookup key acc))
  combine_keys-lookup ds source [] acc h key = inr (refl, ground arith)
  combine_keys-lookup ds source (k ∷ ks) acc h key =
      let (v, one, rest) = bind-ok (combine_key ds source k) _ h in
      elim (combine_keys-lookup ds source ks (insert k v acc) rest key) [
        | inl (later, found) ↦ inl (ground (arith, later), found)
        | inr (not_later, same) ↦ elim (Bool-cases (key == k)) [
          | inl e ↦
              let is_k : k ≡ key = sym ((string_eq.beq_iff key k).0 e) in
              inl (
                rw e refl,
                (
                  v,
                  ap (combine_key ds source) (sym is_k) ∙ one,
                  same ∙ lookup-insert key k v acc ∙ rw e refl,
                ),
              )
          | inr other ↦ inr (rw other not_later, same ∙ lookup-insert key k v acc ∙ rw other refl)
        ]
      ]

  combine_keys-ok :
      (ds : List (Values F)) (source : SourceSide F) (ks : List String) (acc : Values F)
      → All (λ k. (v : F) × (combine_key ds source k ≡ ok v)) ks
      → (c : Values F) × (combine_keys ds source ks acc ≡ ok c)
  combine_keys-ok ds source [] acc h = (acc, refl)
  combine_keys-ok ds source (k ∷ ks) acc ((v, e), h) =
      let (c, rest) = combine_keys-ok ds source ks (insert k v acc) h in (c, rw e rest)

  module _ (fsum_perm : (xs ys : List F) → Permᴰ xs ys → fl.fsum xs ≡ fl.fsum ys) where
    combine_key-Perm :
        (source : SourceSide F) (key : String) {ds es : List (Values F)}
        → Permᴰ ds es
        → combine_key ds source key ≡ combine_key es source key
    combine_key-Perm source key {ds} {es} p =
        let total = fsum_perm (readings key ds) (readings key es) (readings-Perm key p) in
        let count = length-Perm (readings-Perm key p) in
        ap
          (λ t. t >>= λ total. by_mode (aggregate_mode key source) total (length (readings key ds)))
          total
        ∙ ap
            (λ n.
              fl.fsum (readings key es) >>= λ total. by_mode (aggregate_mode key source) total n)
            count

    -- If `math.fsum` does not depend on the order of what it sums up (it rounds the exact sum), the combined sample does not
    -- depend on the order of the controllers: it is there for one order if it is for another, with the
    -- same value at each point.
    pub combine-Perm :
        (source : SourceSide F) {ds es : List (Values F)} {c : Values F}
        → Permᴰ ds es
        → combine ds source ≡ ok c
        → (d : Values F) × (combine es source ≡ ok d)
          × ((key : String) → lookup key d ≡ lookup key c)
    unfolding combine
    combine-Perm source {ds} {es} {c} p h =
        let ks = all_keys ds [] in
        let ls = all_keys es [] in
        let same_keys : (key : String) → mem key ls ≡ mem key ks = λ key.
          mem-all_keys key es []
          ∙ sym (any-Perm (λ vs. contains key vs) p)
          ∙ sym (mem-all_keys key ds []) in
        let (d, made) = combine_keys-ok es source ls [] (
          All-imp (λ k. mem k ls ≡ true) (λ k. (v : F) × (combine_key es source k ≡ ok v)) ls
            (λ k there. elim (combine_keys-lookup ds source ks [] h k) [
              | inl (_, (v, e, _)) ↦ (v, sym (combine_key-Perm source k p) ∙ e)
              | inr (not_there, _) ↦ absurd (cc (same_keys k, there, not_there))
            ])
            (mem_self ls)) in
        (
          d,
          made,
          λ key. elim (combine_keys-lookup ds source ks [] h key) [
            | inl (there, (v, e, found)) ↦ elim (combine_keys-lookup es source ls [] made key) [
              | inl (_, (w, f, again)) ↦
                  let equal : ok w ≡ ok v = sym f ∙ sym (combine_key-Perm source key p) ∙ e in
                  cc (equal, again, found)
              | inr (not_there, _) ↦ absurd (cc (same_keys key, there, not_there))
            ]
            | inr (not_there, old) ↦ elim (combine_keys-lookup es source ls [] made key) [
              | inl (there, _) ↦ absurd (cc (same_keys key, there, not_there))
              | inr (_, again) ↦ again ∙ sym old
            ]
          ],
        )
