-- ===== src/Base/Dicts.antt =====
-- A Python dict: an association list in insertion order. A write to a key that is there keeps its
-- place, as in Python.
use Prim.Native.Nat.{◌+◌, ◌≤◌}
use mathlib.Core.Path.{◌≡◌, refl, subst}
use mathlib.Core.Logic.{inl, inr}
use mathlib.Core.Bool.{Bool, true, false, ◌||◌}
use mathlib.Core.Option.{Option, none, some}
use mathlib.Core.List.{◌++◌, List, [], ◌∷◌}
use native.Mathlib.Omega.{arith}
use nd45_dtsu666_converter.Base.Tests.{Eq, ◌==◌, if◌then◌else◌, Bool-cases}
use nd45_dtsu666_converter.Base.Lists.{length, All}

abbrev pub Dict : Type 0 → Type 0 → Type 0
Dict K V = List (K × V)

abbrev pub is_some {ℓ} : {A : Type ℓ} → Option A → Bool
is_some none = false
is_some (some _) = true

-- `k in s`, for a list or a set
abbrev pub mem : {K : Type 0} ⦃e : Eq K⦄ → K → List K → Bool
mem k [] = false
mem k (j ∷ js) = k == j || mem k js

module _ {K V : Type 0} where
  -- `list(d)`, `list(d.values())`
  abbrev pub keys : Dict K V → List K
  keys [] = []
  keys ((k, _) ∷ d) = k ∷ keys d

  abbrev pub values : Dict K V → List V
  values [] = []
  values ((_, v) ∷ d) = v ∷ values d

module _ {K V : Type 0} ⦃e : Eq K⦄ where
  -- `d.get(k)`
  abbrev pub lookup : K → Dict K V → Option V
  lookup k [] = none
  lookup k ((j, v) ∷ d) = if k == j then some v else lookup k d

  -- `k in d`
  abbrev pub contains : K → Dict K V → Bool
  contains k d = is_some (lookup k d)

  -- `d[k] = v`
  abbrev pub insert : K → V → Dict K V → Dict K V
  insert k v [] = (k, v) ∷ []
  insert k v ((j, w) ∷ d) = if k == j then (j, v) ∷ d else (j, w) ∷ insert k v d

  pub lookup-insert :
      (j k : K) (v : V) (d : Dict K V)
      → lookup j (insert k v d) ≡ (if j == k then some v else lookup j d)
  lookup-insert j k v [] = refl
  lookup-insert j k v ((i, w) ∷ d) =
      ground (arith, e.beq_iff j k, e.beq_iff k i, e.beq_iff j i, lookup-insert j k v d)

  pub lookup-insert_self : (k : K) (v : V) (d : Dict K V) → lookup k (insert k v d) ≡ some v
  lookup-insert_self k v d = ground (arith, e.beq_iff k k, lookup-insert k k v d)

  -- A key is kept by a write to any key.
  pub contains-insert :
      (j k : K) (v : V) (d : Dict K V) → contains j d ≡ true → contains j (insert k v d) ≡ true
  contains-insert j k v d h = ground (arith, lookup-insert j k v d)

  -- The keys after a write, exactly.
  pub contains-insert_eq :
      (j k : K) (v : V) (d : Dict K V) → contains j (insert k v d) ≡ (j == k || contains j d)
  contains-insert_eq j k v d = ground (arith, lookup-insert j k v d)

  -- A write adds at most one key, and none if the key is there.
  pub length-insert_old :
      (k : K) (v : V) (d : Dict K V) → contains k d ≡ true → length (insert k v d) ≡ length d
  length-insert_old k v [] h = ground arith
  length-insert_old k v ((j, w) ∷ d) h = ground (arith, length-insert_old k v d)

  pub length-insert : (k : K) (v : V) (d : Dict K V) → length (insert k v d) ≤ length d + 1
  length-insert k v [] = omega arith
  length-insert k v ((j, w) ∷ d) = ground (arith, length-insert k v d)

  -- A property of every value survives a write of a value that has it.
  pub All-insert {κ} :
      (P : V → Type κ) (k : K) (v : V) (d : Dict K V)
      → All P (values d)
      → P v
      → All P (values (insert k v d))
  All-insert P k v [] h p = (p, tt)
  All-insert P k v ((j, w) ∷ d) h p = elim (Bool-cases (k == j)) [
    | inl same ↦ ground arith
    | inr other ↦ ground (arith, All-insert P k v d h.1 p)
  ]

module _ {K V : Type 0} ⦃e : Eq K⦄ where
  -- What is found has what every value has.
  pub lookup-All {κ} :
      (P : V → Type κ) (k : K) (d : Dict K V) {v : V} → All P (values d) → lookup k d ≡ some v → P v
  lookup-All P k [] h found = cc
  lookup-All P k ((j, w) ∷ d) {v} h found = elim (Bool-cases (k == j)) [
    | inl same ↦ let q : w ≡ v = ground arith in subst P q h.0
    | inr other ↦ lookup-All P k d h.1 (rw other at found)
  ]

module _ {K : Type 0} ⦃e : Eq K⦄ where
  pub mem-append : (k : K) (xs ys : List K) → mem k (xs ++ ys) ≡ (mem k xs || mem k ys)
  mem-append k [] ys = refl
  mem-append k (x ∷ xs) ys = ground (arith, mem-append k xs ys)

  pub mem_self : (xs : List K) → All (λ x. mem x xs ≡ true) xs
  mem_self xs = mem_of xs xs (λ x h. h)
    where
      mem_of :
          (more ys : List K)
          → ((x : K) → mem x ys ≡ true → mem x more ≡ true)
          → All (λ x. mem x more ≡ true) ys
      mem_of more [] f = tt
      mem_of more (y ∷ ys) f =
          (f y (ground (arith, e.beq_iff y y)), mem_of more ys (λ x h. f x (ground arith)))
