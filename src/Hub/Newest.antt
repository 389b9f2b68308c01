-- ===== src/Hub/Newest.antt =====
-- hub_client.py: the cache, and the log of all updates that it has received.
use nd45_dtsu666_converter.Base.{
  arith, ◌∷◌, [], List, some, none, Option, false, true, Bool, inr, inl, ◌∙◌, ap, sym, refl, ◌≡◌,
  String, ◌<◌, ◌≤◌, ◌+◌, All-insert, insert, values, Dict, All-imp, All, Bool-cases, if◌then◌else◌,
  ltb, ℕ, string_eq, nat_eq, ◌==◌,
}
use nd45_dtsu666_converter.Hub.{
  Request, cache_lookup, covers, answer, unless_down, set_stream_error, new_cache, BlockCache,
  cache_update, entry_of, newest, better, block_key_eq, Entry, BlockKey,
}

-- One update as it arrives.
pub record Update : Type 0 where
  pub key : BlockKey
  pub regs : Option (List ℕ)
  pub error : Option String
  pub at : ℕ

abbrev pub stored : Update → Entry
stored u = entry_of u.regs u.error u.at

abbrev pub apply_update : BlockCache → Update → BlockCache
apply_update c u = cache_update c u.key u.regs u.error u.at

-- The cache after a log, oldest update first.
abbrev pub replay : List Update → BlockCache → BlockCache
replay [] c = c
replay (u ∷ us) c = replay us (apply_update c u)

-- The last update of a log that a test accepts.
abbrev pub last_where :
    (BlockKey → Bool) → Option (BlockKey × Entry) → List Update → Option (BlockKey × Entry)
last_where p found [] = found
last_where p found (u ∷ us) = last_where p (if p u.key then some (u.key, stored u) else found) us

-- The updates arrive one after the other.
abbrev pub Ascending : ℕ → List Update → Type 0
Ascending t [] = Unit
Ascending t (u ∷ us) = (t ≤ u.at) × Ascending (u.at + 1) us

-- Everything was received before `t`.
abbrev pub AllBefore : ℕ → Dict BlockKey Entry → Type 0
AllBefore t d = All (λ e. e.received_at < t) (values d)

abbrev Before : ℕ → Option (BlockKey × Entry) → Type 0
Before t none = Unit
Before t (some b) = b.1.received_at < t

module _ (p : BlockKey → Bool) where
  -- An older entry does not replace a newer one.
  newest_keeps :
      (k : BlockKey) (e : Entry) (d : Dict BlockKey Entry)
      → AllBefore e.received_at d
      → newest p (some (k, e)) d ≡ some (k, e)
  unfolding newest
  newest_keeps k e [] h = refl
  newest_keeps k e ((j, w) ∷ d) h =
      let same : (if p j then better (some (k, e)) (j, w) else some (k, e)) ≡ some (k, e) =
        ground (arith, h.0) in
      rw same (newest_keeps k e d h.1)

  -- A write to a key that is not asked for changes nothing.
  newest-insert_other :
      (best : Option (BlockKey × Entry)) (k : BlockKey) (e : Entry) (d : Dict BlockKey Entry)
      → p k ≡ false
      → newest p best (insert k e d) ≡ newest p best d
  unfolding newest
  newest-insert_other best k e [] h = rw h refl
  newest-insert_other best k e ((j, w) ∷ d) h = elim (Bool-cases (k == j)) [
    | inl same ↦
        let pj : p j ≡ false = ap p (sym ((block_key_eq.beq_iff k j).0 same)) ∙ h in
        let fresh : (if p j then better best (j, e) else best) ≡ best = rw pj refl in
        let old : (if p j then better best (j, w) else best) ≡ best = rw pj refl in
        rw same (ap (λ b. newest p b d) (fresh ∙ sym old))
    | inr other ↦ rw other (newest-insert_other (if p j then better best (j, w) else best) k e d h)
  ]

  -- A write that is newer than everything is what is found.
  newest-insert :
      (best : Option (BlockKey × Entry)) (k : BlockKey) (e : Entry) (d : Dict BlockKey Entry)
      → p k ≡ true
      → Before e.received_at best
      → AllBefore e.received_at d
      → newest p best (insert k e d) ≡ some (k, e)
  unfolding newest
  newest-insert none k e [] h b a = rw h refl
  newest-insert (some x) k e [] h b a = ground (arith, h, b)
  newest-insert best k e ((j, w) ∷ d) h b a = elim (Bool-cases (k == j)) [
    | inl same ↦
        let kj : k ≡ j = (block_key_eq.beq_iff k j).0 same in
        let pj : p j ≡ true = ap p (sym kj) ∙ h in
        let fresh : (if p j then better best (j, e) else best) ≡ better best (j, e) = rw pj refl in
        rw same (
          ap (λ c. newest p c d) (fresh ∙ newer best j e b)
          ∙ newest_keeps j e d a.1
          ∙ ap (λ i. some (i, e)) (sym kj))
    | inr other ↦ rw other (
        newest-insert (if p j then better best (j, w) else best) k e d h
          (older best j w (p j) b a.0) a.1)
  ]
    where
      newer :
          (best : Option (BlockKey × Entry)) (j : BlockKey) (e : Entry)
          → Before e.received_at best
          → better best (j, e) ≡ some (j, e)
      newer none j e b = refl
      newer (some x) j e b = ground (arith, b)

      older :
          (best : Option (BlockKey × Entry)) (j : BlockKey) (w : Entry) (t : Bool)
          → Before e.received_at best
          → w.received_at < e.received_at
          → Before e.received_at (if t then better best (j, w) else best)
      older best j w false b l = b
      older none j w true b l = l
      older (some x) j w true b l = elim (Bool-cases (ltb x.1.received_at w.received_at)) [
        | inl less ↦ rw less l
        | inr not_less ↦ rw not_less b
      ]

  -- The cache finds the last covering update of the log.
  newest_of_log :
      (us : List Update) (t : ℕ) (c : BlockCache)
      → AllBefore t c.entries
      → Ascending t us
      → newest p none (replay us c).entries ≡ last_where p (newest p none c.entries) us
  unfolding cache_update
  newest_of_log [] t c before ascending = refl
  newest_of_log (u ∷ us) t c before ascending =
      let earlier =
        All-imp (λ e. e.received_at < t) (λ e. e.received_at < u.at) (values c.entries)
          (λ e l. omega (arith, l, ascending.0)) before in
      let later =
        All-imp (λ e. e.received_at < t) (λ e. e.received_at < u.at + 1) (values c.entries)
          (λ e l. omega (arith, l, ascending.0)) before in
      let this : (stored u).received_at < u.at + 1 = omega arith in
      newest_of_log us (u.at + 1) (apply_update c u)
        (All-insert (λ e. e.received_at < u.at + 1) u.key (stored u) c.entries later this)
        ascending.1
      ∙ ap (λ found. last_where p found us) (step earlier)
    where
      step :
          AllBefore u.at c.entries
          → newest p none (insert u.key (stored u) c.entries)
            ≡ (if p u.key then some (u.key, stored u) else newest p none c.entries)
      step earlier = elim (Bool-cases (p u.key)) [
        | inl asked ↦ rw asked (newest-insert none u.key (stored u) c.entries asked tt earlier)
        | inr other ↦ rw other (newest-insert_other none u.key (stored u) c.entries other)
      ]

replay_keeps :
    (us : List Update) (c : BlockCache)
    → ((replay us c).stream_error ≡ c.stream_error) × ((replay us c).max_stale ≡ c.max_stale)
unfolding cache_update
replay_keeps [] c = (refl, refl)
replay_keeps (u ∷ us) c = replay_keeps us (apply_update c u)

-- While the stream is up, a read of a cache that started empty is answered from the whole log of
-- updates, received one after the other: by its last update whose block covers the read.
pub cache_lookup_refines :
    (us : List Update) (max_stale : ℕ) (r : Request) (now : ℕ)
    → Ascending 0 us
    → cache_lookup (replay us (set_stream_error (new_cache max_stale) none)) r now
      ≡ answer max_stale r now (last_where (covers r) none us)
unfolding cache_lookup new_cache set_stream_error newest
cache_lookup_refines us max_stale r now ascending =
    let c = set_stream_error (new_cache max_stale) none in
    let (up, limit) = replay_keeps us c in
    ap
      (λ down.
        unless_down down
          (answer (replay us c).max_stale r now (newest (covers r) none (replay us c).entries)))
      up
    ∙ ap (λ m. answer m r now (newest (covers r) none (replay us c).entries)) limit
    ∙ ap (answer max_stale r now) (newest_of_log (covers r) us 0 c tt ascending)
