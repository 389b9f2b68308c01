-- ===== src/Metrics/Exposition.antt =====
-- metrics.py: the help and type lines of a text, and the calls of `_Out` that make them. Whether the
-- lines of a family stand together, as the text format asks for, is not looked at.
pub mod Families
pub mod Measured
pub mod Rendered
use nd45_dtsu666_converter.Metrics.{
  Out, Value, Labels, perform_calls, out_family, out_sample, sample, fails, family, Call, help_line,
  Line, Kind, type_line, sample_line,
}
use nd45_dtsu666_converter.Base.{
  ok, some, none, Option, ◌∙◌, ap, refl, if◌then◌else◌, arith, ◌++◌, ◌∷◌, [], List, false, true,
  Bool, ◌≡◌, String, mem, string_eq, nat_eq, ◌==◌,
}

-- A reader of the text: the name of a help line whose type line is still to come, and the families
-- that have both.
pub data Reading : Type 0 where
  broken : Reading
  reading : Option String → List String → Reading

abbrev read_type : Option String → List String → String → Reading
read_type none seen name = broken
read_type (some helped) seen name = if helped == name then reading none (name ∷ seen) else broken

abbrev read_sample : Option String → List String → String → Reading
read_sample none seen name = if mem name seen then reading none seen else broken
read_sample (some helped) seen name = broken

abbrev read_help : Option String → List String → String → Reading
read_help none seen name = if mem name seen then broken else reading (some name) seen
read_help (some helped) seen name = broken

module _ {F : Type 0} where
  -- A help line opens a family that is new, its type line comes next, and samples are of families
  -- that are there.
  abbrev read_line : Reading → Line F → Reading
  read_line broken line = broken
  read_line (reading open_ seen) (help_line name) = read_help open_ seen name
  read_line (reading open_ seen) (type_line name kind) = read_type open_ seen name
  read_line (reading open_ seen) (sample_line name labels value) = read_sample open_ seen name

  abbrev pub read_text : Reading → List (Line F) → Reading
  read_text r [] = r
  read_text r (line ∷ rest) = read_text (read_line r line) rest

  read_text-append :
      (r : Reading) (xs ys : List (Line F)) → read_text r (xs ++ ys) ≡ read_text (read_text r xs) ys
  read_text-append r [] ys = refl
  read_text-append r (x ∷ xs) ys = read_text-append (read_line r x) xs ys

  -- The text so far has its help and type lines in place, and its families are those declared.
  abbrev pub IsRead : Out F → Type 0
  IsRead out = read_text (reading none []) out.out_lines ≡ reading none out.declared

-- The calls of the renderer: every sample is of a family that is declared before it, and none fails.
abbrev pub Sampled : {F : Type 0} → List String → List (Call F) → Type 0
Sampled seen [] = Unit
Sampled seen (family name kind ∷ calls) = Sampled (name ∷ seen) calls
Sampled seen (sample name value labels ∷ calls) = (mem name seen ≡ true) × Sampled seen calls
Sampled seen (fails e ∷ calls) = false ≡ true

abbrev Within : List String → List String → Type 0
Within seen more = (n : String) → mem n seen ≡ true → mem n more ≡ true

module _ {F : Type 0} where
  -- What a family declared more does not disturb.
  pub Sampled-more :
      (seen more : List String) (calls : List (Call F))
      → Within seen more
      → Sampled seen calls
      → Sampled more calls
  Sampled-more seen more [] f h = tt
  Sampled-more seen more (family name kind ∷ calls) f h =
      Sampled-more (name ∷ seen) (name ∷ more) calls (λ n p. ground (arith, f n)) h
  Sampled-more seen more (sample name value labels ∷ calls) f h =
      (f name h.0, Sampled-more seen more calls f h.1)
  Sampled-more seen more (fails e ∷ calls) f h = h

  pub Sampled-append :
      (seen : List String) (xs ys : List (Call F))
      → Sampled seen xs
      → Sampled seen ys
      → Sampled seen (xs ++ ys)
  Sampled-append seen [] ys h k = k
  Sampled-append seen (family name kind ∷ xs) ys h k =
      Sampled-append (name ∷ seen) xs ys h
        (Sampled-more seen (name ∷ seen) ys (λ n p. ground arith) k)
  Sampled-append seen (sample name value labels ∷ xs) ys h k =
      (h.0, Sampled-append seen xs ys h.1 k)
  Sampled-append seen (fails e ∷ xs) ys h k = h

  out_family-IsRead :
      (name : String) (kind : Kind) (out : Out F) → IsRead out → IsRead (out_family name kind out)
  unfolding out_family
  out_family-IsRead name kind out h = go (mem name out.declared) refl
    where
      go :
          (t : Bool)
          → mem name out.declared ≡ t
          → IsRead (
              if t then out else record {
                out_lines = out.out_lines ++ help_line name ∷ type_line name kind ∷ [];
                declared = name ∷ out.declared;
              })
      go true known = h
      go false new =
          let same : (name == name) ≡ true = (string_eq.beq_iff name name).1 refl in
          let added : List (Line F) = help_line name ∷ type_line name kind ∷ [] in
          let read : read_text (reading none out.declared) added
              ≡ reading none (name ∷ out.declared) =
            rw new (rw same refl) in
          read_text-append (reading none []) out.out_lines added
          ∙ ap (λ r. read_text r added) h
          ∙ read

  out_sample-IsRead :
      (name : String) (value : Value F) (labels : Labels) (out : Out F)
      → mem name out.declared ≡ true
      → IsRead out
      → IsRead (out_sample name value labels out)
  unfolding out_sample
  out_sample-IsRead name value labels out known h =
      read_text-append (reading none []) out.out_lines (sample_line name labels value ∷ [])
      ∙ ap (λ r. read_text r (sample_line name labels value ∷ [])) h
      ∙ rw known refl

  out_family-known :
      (n name : String) (kind : Kind) (out : Out F)
      → mem n (name ∷ out.declared) ≡ true
      → mem n (out_family name kind out).declared ≡ true
  unfolding out_family
  out_family-known n name kind out h = ground (arith, string_eq.beq_iff n name)

  pub perform_calls-IsRead :
      (out : Out F) (calls : List (Call F))
      → Sampled out.declared calls
      → IsRead out
      → (done : Out F) × (perform_calls out calls ≡ ok done) × IsRead done
  unfolding perform_calls out_sample
  perform_calls-IsRead out [] s h = (out, refl, h)
  perform_calls-IsRead out (family name kind ∷ calls) s h =
      perform_calls-IsRead (out_family name kind out) calls
        (Sampled-more (name ∷ out.declared) (out_family name kind out).declared calls
          (λ n p. out_family-known n name kind out p) s)
        (out_family-IsRead name kind out h)
  perform_calls-IsRead out (sample name value labels ∷ calls) s h =
      perform_calls-IsRead (out_sample name value labels out) calls s.1
        (out_sample-IsRead name value labels out s.0 h)
  perform_calls-IsRead out (fails e ∷ calls) s h = absurd (cc)
