-- ===== src/Tests/Memory.antt =====
-- A concrete `Datastore`: a memory for each function code, from addresses to register values.
use nd45_dtsu666_converter.Registers.{FunctionCode, fc4, fc3}
use nd45_dtsu666_converter.Datastore.{DatastoreLaws, Datastore, Apart}
use nd45_dtsu666_converter.Base.{
  arith, ◌∷◌, [], List, inr, inl, ◌⊎◌, refl, ◌≡◌, ◌<◌, ◌≤◌, ◌+◌, suc, zero, length, if◌then◌else◌,
  eqb, ℕ,
}

abbrev pub Memory : Type 0
Memory = FunctionCode → ℕ → ℕ

abbrev put : (ℕ → ℕ) → ℕ → List ℕ → ℕ → ℕ
put f a [] x = f x
put f a (v ∷ vs) x = if eqb x a then v else put f (a + 1) vs x

abbrev read : (ℕ → ℕ) → ℕ → ℕ → List ℕ
read f a zero = []
read f a (suc n) = f a ∷ read f (a + 1) n

abbrev put_at : Memory → FunctionCode → ℕ → List ℕ → FunctionCode → ℕ → ℕ
put_at s fc3 a vs fc3 = put (s fc3) a vs
put_at s fc4 a vs fc4 = put (s fc4) a vs
put_at s fc3 a vs fc4 = s fc4
put_at s fc4 a vs fc3 = s fc3

instance abbrev pub memory : Datastore Memory
memory = record { set_values = put_at; get_values = λ s fc a n. read (s fc) a n }

read_same :
    (f g : ℕ → ℕ) (a n : ℕ) → ((x : ℕ) → a ≤ x → x < a + n → f x ≡ g x) → read f a n ≡ read g a n
read_same f g a zero h = refl
read_same f g a (suc n) h =
    let here = h a (omega arith) (omega arith) in
    let there = read_same f g (a + 1) n (λ x l u. h x (omega arith) (omega arith)) in
    rw (here, there) refl

read-put : (f : ℕ → ℕ) (a : ℕ) (vs : List ℕ) → read (put f a vs) a (length vs) ≡ vs
read-put f a [] = refl
read-put f a (v ∷ vs) =
    let there =
      read_same (put f a (v ∷ vs)) (put f (a + 1) vs) (a + 1) (length vs) (λ x l u. ground arith) in
    let rest = read-put f (a + 1) vs in rw (there, rest) (ground arith)

put_apart :
    (f : ℕ → ℕ) (a : ℕ) (vs : List ℕ) (x : ℕ) → (x < a) ⊎ (a + length vs ≤ x) → put f a vs x ≡ f x
put_apart f a [] x h = refl
put_apart f a (v ∷ vs) x h = ground (arith, put_apart f (a + 1) vs x)

read-put_apart :
    (f : ℕ → ℕ) (a b n : ℕ) (vs : List ℕ)
    → (a + length vs ≤ b) ⊎ (b + n ≤ a)
    → read (put f a vs) b n ≡ read f b n
read-put_apart f a b n vs h =
    read_same (put f a vs) f b n (λ x l u. put_apart f a vs x (ground arith))

memory-get_set :
    (s : Memory) (fc : FunctionCode) (a : ℕ) (vs : List ℕ)
    → read (put_at s fc a vs fc) a (length vs) ≡ vs
memory-get_set s fc3 a vs = read-put (s fc3) a vs
memory-get_set s fc4 a vs = read-put (s fc4) a vs

memory-get_set-Apart :
    (s : Memory) (fc fc' : FunctionCode) (a b n : ℕ) (vs : List ℕ)
    → Apart fc a (length vs) fc' b n
    → read (put_at s fc a vs fc') b n ≡ read (s fc') b n
memory-get_set-Apart s fc3 fc3 a b n vs (inl h) = absurd (h refl)
memory-get_set-Apart s fc4 fc4 a b n vs (inl h) = absurd (h refl)
memory-get_set-Apart s fc3 fc3 a b n vs (inr h) = read-put_apart (s fc3) a b n vs h
memory-get_set-Apart s fc4 fc4 a b n vs (inr h) = read-put_apart (s fc4) a b n vs h
memory-get_set-Apart s fc3 fc4 a b n vs h = refl
memory-get_set-Apart s fc4 fc3 a b n vs h = refl

pub memory_laws : DatastoreLaws memory
memory_laws = record { get-set = memory-get_set; get-set_apart = memory-get_set-Apart }
