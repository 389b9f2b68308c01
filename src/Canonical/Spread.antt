-- ===== src/Canonical/Spread.antt =====
-- canonical.py: `SampleStats`, the rolling spread of recent samples for each tracked point.
use nd45_dtsu666_converter.Base.{
  ◌∙◌, mem_self, contains-insert_eq, All-imp, refl, lookup-All, All-insert, contains-insert, mem,
  Option-cases, key_error, err, ok, arith, ◌++◌, ◌∷◌, [], List, some, none, Option, true, inr, inl,
  ◌≡◌, String, ◌≤◌, ◌-◌, ◌+◌, Result, ◌>>=◌, insert, contains, lookup, values, Dict, All-drop,
  All-append, length-drop, All, drop, length, Floats, of_nat, Bool-cases, string_eq, nat_eq,
  if◌then◌else◌, ℕ,
}
use nd45_dtsu666_converter.Canonical.{Values}

pub record SampleStats (F : Type 0) : Type 0 where
  pub points : List String
  pub window : ℕ
  pub history : Dict String (List F)
  pub samples : ℕ

-- `append` of a `deque(maxlen=window)`: the oldest entries fall out at the left.
abbrev pub deque_append {ℓ} : {A : Type ℓ} → ℕ → List A → A → List A
deque_append window xs v = let ys = xs ++ v ∷ [] in drop (length ys - window) ys

pub record Summary (F : Type 0) : Type 0 where
  pub n : ℕ
  pub min : F
  pub max : F
  pub last : F
  pub sign_changes : ℕ

module _ {F : Type 0} where
  abbrev pub empty_history : List String → Dict String (List F)
  empty_history [] = []
  empty_history (name ∷ names) = insert name [] (empty_history names)

  unfoldable pub new_stats : List String → ℕ → SampleStats F
  new_stats points window = record {
    points = points;
    window = window;
    history = empty_history points;
    samples = 0;
  }

module _ {F : Type 0} ⦃fl : Floats F⦄ where
  -- `self._history[name].append(value)`
  abbrev pub append_to : ℕ → Dict String (List F) → String → F → Result (Dict String (List F))
  append_to window h name v = elim (lookup name h) [
    | none ↦ err key_error
    | some xs ↦ ok (insert name (deque_append window xs v) h)
  ]

  -- one round of the loop of `record`
  abbrev pub record_point :
      ℕ → Values F → String → Dict String (List F) → Result (Dict String (List F))
  record_point window vs name h = elim (lookup name vs) [
    | none ↦ ok h
    | some v ↦ if fl.is_finite v then append_to window h name v else ok h
  ]

  unfoldable pub record_points :
      ℕ → Values F → List String → Dict String (List F) → Result (Dict String (List F))
  record_points window vs [] h = ok h
  record_points window vs (name ∷ names) h =
      record_point window vs name h >>= λ h'. record_points window vs names h'

  unfoldable pub record_sample : SampleStats F → Values F → Result (SampleStats F)
  record_sample s vs = do
    h ← record_points s.window vs s.points s.history
    ok (record s { history = h; samples = s.samples + 1 })

  -- the loop over the history: crossings so far, and the last sample that was not zero
  unfoldable pub crossings : ℕ → Option F → List F → ℕ
  crossings n last_signed [] = n
  crossings n last_signed (v ∷ vs) =
      crossings
        (elim last_signed [
          | none ↦ n
          | some l ↦ if fl.lt (fl.mul v l) (of_nat 0) then n + 1 else n
        ])
        (if fl.eq v (of_nat 0) then last_signed else some v) vs

  abbrev pub least : F → List F → F
  least m [] = m
  least m (x ∷ xs) = least (if fl.lt x m then x else m) xs

  abbrev pub greatest : F → List F → F
  greatest m [] = m
  greatest m (x ∷ xs) = greatest (if fl.lt m x then x else m) xs

  abbrev pub last_of : F → List F → F
  last_of x [] = x
  last_of x (y ∷ ys) = last_of y ys

  -- The summary of a history, if it holds a sample.
  abbrev pub summary_of : List F → Option (Summary F)
  summary_of [] = none
  summary_of (x ∷ xs) = some (record {
    n = length (x ∷ xs);
    min = least x xs;
    max = greatest x xs;
    last = last_of x xs;
    sign_changes = crossings 0 none (x ∷ xs);
  })

  unfoldable pub stats_summary : SampleStats F → String → Option (Summary F)
  stats_summary s name = elim (lookup name s.history) [ none ↦ none | some xs ↦ summary_of xs ]

  -- A history of at most `window` samples, all of them finite.
  abbrev pub IsHistory : ℕ → List F → Type 0
  IsHistory window xs = (length xs ≤ window) × All (λ x. fl.is_finite x ≡ true) xs

  pub record IsTracking (s : SampleStats F) : Type 0 where
    pub bounded : All (IsHistory s.window) (values s.history)
    pub tracked : All (λ name. contains name s.history ≡ true) s.points

  deque_append-IsHistory :
      (window : ℕ) (xs : List F) (v : F)
      → IsHistory window xs
      → fl.is_finite v ≡ true
      → IsHistory window (deque_append window xs v)
  deque_append-IsHistory window xs v h f =
      let ys = xs ++ v ∷ [] in
      (
        omega (arith, length-drop (length ys - window) ys),
        All-drop _ (length ys - window) ys (All-append _ xs (v ∷ []) h.1 (f, tt)),
      )

  -- What a round keeps: bounded histories, and the tracked names.
  abbrev Kept : ℕ → Dict String (List F) → Result (Dict String (List F)) → Type 0
  Kept window h (ok h') =
      All (IsHistory window) (values h')
      × ((name : String) → contains name h ≡ true → contains name h' ≡ true)
  Kept window h (err _) = ⊥

  record_point-Kept :
      (window : ℕ) (vs : Values F) (name : String) (h : Dict String (List F))
      → All (IsHistory window) (values h)
      → contains name h ≡ true
      → Kept window h (record_point window vs name h)
  record_point-Kept window vs name h b c = elim (Option-cases (lookup name vs)) [
    | inl absent ↦ rw (absent, Kept) (b, λ _ p. p)
    | inr (v, got) ↦ elim (Bool-cases (fl.is_finite v)) [
      | inr bad ↦ rw (got, bad, Kept) (b, λ _ p. p)
      | inl fin ↦ elim (Option-cases (lookup name h)) [
        | inl lost ↦ absurd (ground arith)
        | inr (xs, e) ↦
            rw (got, fin, e, Kept)
              (
                All-insert (IsHistory window) name (deque_append window xs v) h b (
                    deque_append-IsHistory window xs v (lookup-All (IsHistory window) name h b e)
                      fin),
                λ j p. contains-insert j name (deque_append window xs v) h p,
              )
      ]
    ]
  ]

  Kept->>= :
      (window : ℕ) (h : Dict String (List F)) (r : Result (Dict String (List F)))
      (f : Dict String (List F) → Result (Dict String (List F)))
      → Kept window h r
      → ((h' : Dict String (List F))
          → All (IsHistory window) (values h')
          → ((name : String) → contains name h ≡ true → contains name h' ≡ true)
          → Kept window h' (f h'))
      → Kept window h (r >>= f)
  Kept->>= window h (ok h') f k next = chain (f h') (next h' k.0 k.1)
    where
      chain : (r : Result (Dict String (List F))) → Kept window h' r → Kept window h r
      chain (ok h'') (b, c) = (b, λ name p. c name (k.1 name p))
      chain (err e) x = x
  Kept->>= window h (err e) f k next = k

  record_points-Kept :
      (window : ℕ) (vs : Values F) (names : List String) (h : Dict String (List F))
      → All (IsHistory window) (values h)
      → All (λ name. contains name h ≡ true) names
      → Kept window h (record_points window vs names h)
  unfolding record_points
  record_points-Kept window vs [] h b c = (b, λ _ p. p)
  record_points-Kept window vs (name ∷ names) h b c =
      Kept->>= window h (record_point window vs name h) (record_points window vs names)
        (record_point-Kept window vs name h b c.0)
        λ h' b' k. record_points-Kept window vs names h' b' (All-imp _ _ names k c.1)

  -- What a recorded sample leaves.
  abbrev pub Tracked : SampleStats F → Result (SampleStats F) → Type 0
  Tracked s (ok s') = IsTracking s' × (s'.samples ≡ s.samples + 1) × (s'.points ≡ s.points)
  Tracked s (err _) = ⊥

  Tracked-of_Kept :
      (s : SampleStats F) (r : Result (Dict String (List F)))
      → IsTracking s
      → Kept s.window s.history r
      → Tracked s (r >>= λ h. ok (record s { history = h; samples = s.samples + 1 }))
  Tracked-of_Kept s (ok h) v (b, c) =
      (record { bounded = b; tracked = All-imp _ _ s.points c v.tracked }, refl, refl)
  Tracked-of_Kept s (err e) v k = k

  -- Recording any sample into a consistent tracker never raises, counts it, and keeps each history
  -- within the window and free of values that are not finite.
  pub record_sample-IsTracking :
      (s : SampleStats F) (vs : Values F) → IsTracking s → Tracked s (record_sample s vs)
  unfolding record_sample
  record_sample-IsTracking s vs v =
      Tracked-of_Kept s _ v (record_points-Kept s.window vs s.points s.history v.bounded v.tracked)

module _ (F : Type 0) ⦃fl : Floats F⦄ (window : ℕ) where
  empty_history-bounded :
      (names : List String) → All (IsHistory window) (values (empty_history {F = F} names))
  empty_history-bounded [] = tt
  empty_history-bounded (name ∷ names) =
      All-insert (IsHistory window) name [] (empty_history names) (empty_history-bounded names)
        (omega arith, tt)

  empty_history-tracked :
      (name : String) (names : List String)
      → contains name (empty_history {F = F} names) ≡ mem name names
  empty_history-tracked name [] = refl
  empty_history-tracked name (other ∷ names) = ground (
    arith,
    contains-insert_eq {V = List F} name other [] (empty_history names),
    empty_history-tracked name names,
  )

  -- A new tracker is in that state.
  pub new_stats-IsTracking : (points : List String) → IsTracking (new_stats {F = F} points window)
  unfolding new_stats
  new_stats-IsTracking points = record {
    bounded = empty_history-bounded points;
    tracked =
        All-imp _ _ points (λ name m. empty_history-tracked name points ∙ m) (mem_self points);
  }
