-- ===== src/Hub/Answered.antt =====
-- hub_client.py: where the registers of an answered read come from.
use nd45_dtsu666_converter.Hub.Slice.{IsPart, slice-IsPart, slice-registers}
use mathlib.Core.Path.{subst}
use nd45_dtsu666_converter.Pollers.{registers}
use nd45_dtsu666_converter.Hub.{
  is_set, answer, cache_lookup, offset_in, unless_down, Request, Entry, better, BlockKey, covers,
  newest, BlockCache,
}
use nd45_dtsu666_converter.Base.{
  ap, String, arith, ◌∷◌, [], List, some, none, Option, false, true, Bool, inr, inl, ◌⊎◌, refl, ◌≡◌,
  ◌≤◌, ◌+◌, ℕ, Dict, All, Bool-cases, string_eq, nat_eq, if◌then◌else◌, ltb,
}

-- `k` is in the dict with the entry `e`.
abbrev pub In : BlockKey → Entry → Dict BlockKey Entry → Type 0
In k e [] = ⊥
In k e ((j, w) ∷ d) = ((j ≡ k) × (w ≡ e)) ⊎ In k e d

-- The entry `e` of the block `k` is in the cache, covers the read, and no entry that covers it was
-- received later.
pub record IsNewest (c : BlockCache) (r : Request) (k : BlockKey) (e : Entry) : Type 0 where
  pub held : In k e c.entries
  pub covering : covers r k ≡ true
  pub none_newer : All (λ b. covers r b.0 ≡ true → b.1.received_at ≤ e.received_at) c.entries

pub record IsAnswered (c : BlockCache) (r : Request) (now : ℕ) (regs : List ℕ) (k : BlockKey)
    (e : Entry) : Type 0 where
  pub stream_up : c.stream_error ≡ none
  pub newest_held : IsNewest c r k e
  pub not_failed : (e.error ≡ none) ⊎ (e.error ≡ some "")
  pub not_stale : now ≤ e.received_at + c.max_stale
  pub part : (block : List ℕ) × (e.registers_ ≡ some block) × IsPart r k.base block regs

-- Whatever the loop finds passes the test.
abbrev Passes : (BlockKey → Bool) → Option (BlockKey × Entry) → Type 0
Passes p none = Unit
Passes p (some b) = p b.0 ≡ true

newest-Passes :
    (p : BlockKey → Bool) (best : Option (BlockKey × Entry)) (d : Dict BlockKey Entry)
    → Passes p best
    → Passes p (newest p best d)
unfolding newest
newest-Passes p best [] h = h
newest-Passes p best ((k, e) ∷ d) h =
    newest-Passes p (if p k then better best (k, e) else best) d (round best (p k) refl h)
  where
    round :
        (best : Option (BlockKey × Entry)) (t : Bool)
        → p k ≡ t
        → Passes p best
        → Passes p (if t then better best (k, e) else best)
    round best false pk h = h
    round none true pk h = pk
    round (some x) true pk h = elim (Bool-cases (ltb x.1.received_at e.received_at)) [
      | inl newer ↦ rw newer pk
      | inr not_newer ↦ rw not_newer h
    ]

abbrev Newer : Option (BlockKey × Entry) → Option (BlockKey × Entry) → Type 0
Newer none x = Unit
Newer (some b) none = ⊥
Newer (some b) (some x) = b.1.received_at ≤ x.1.received_at

Newer-trans : (a b c : Option (BlockKey × Entry)) → Newer a b → Newer b c → Newer a c
Newer-trans none b c h g = tt
Newer-trans (some a) none c h g = absurd h
Newer-trans (some a) (some b) none h g = absurd g
Newer-trans (some a) (some b) (some c) h g = omega (arith, h, g)

-- The choice between two entries is not older than either.
better-Newer :
    (best : Option (BlockKey × Entry)) (b : BlockKey × Entry)
    → Newer best (better best b) × Newer (some b) (better best b)
better-Newer none b = ground arith
better-Newer (some x) b = elim (Bool-cases (ltb x.1.received_at b.1.received_at)) [
  | inl less ↦ rw less ground arith
  | inr not_less ↦ rw not_less ground arith
]

Newer-refl : (best : Option (BlockKey × Entry)) → Newer best best
Newer-refl none = tt
Newer-refl (some b) = omega arith

-- No entry that passes the test is newer than what the loop finds.
newest-Newer :
    (p : BlockKey → Bool) (best : Option (BlockKey × Entry)) (d : Dict BlockKey Entry)
    → Newer best (newest p best d) × All (λ b. p b.0 ≡ true → Newer (some b) (newest p best d)) d
unfolding newest
newest-Newer p best [] = (Newer-refl best, tt)
newest-Newer p best ((k, e) ∷ d) =
    let best1 = if p k then better best (k, e) else best in
    let rest = newest-Newer p best1 d in
    let first = by_test (p k) refl (newest p best1 d) rest.0 in (first.0, (first.1, rest.1))
  where
    by_test :
        (t : Bool)
        → p k ≡ t
        → (x : Option (BlockKey × Entry)) → Newer (if t then better best (k, e) else best) x
        → Newer best x × (p k ≡ true → Newer (some (k, e)) x)
    by_test false pk x h = (h, λ q. absurd (cc))
    by_test true pk x h =
        let older = better-Newer best (k, e) in
        (
          Newer-trans best (better best (k, e)) x older.0 h,
          λ q. Newer-trans (some (k, e)) (better best (k, e)) x older.1 h,
        )

newest-In :
    (p : BlockKey → Bool) (best : Option (BlockKey × Entry)) (d : Dict BlockKey Entry)
    {k : BlockKey} {e : Entry}
    → newest p best d ≡ some (k, e)
    → (best ≡ some (k, e)) ⊎ In k e d
unfolding newest
newest-In p best [] h = inl h
newest-In p best ((j, w) ∷ d) {k} {e} h =
    by_test (p j) best (newest-In p (if p j then better best (j, w) else best) d h)
  where
    by_test :
        (t : Bool) (best : Option (BlockKey × Entry))
        → ((if t then better best (j, w) else best) ≡ some (k, e)) ⊎ In k e d
        → (best ≡ some (k, e)) ⊎ (((j ≡ k) × (w ≡ e)) ⊎ In k e d)
    by_test t best (inr later) = inr (inr later)
    by_test false best (inl same) = inl same
    by_test true none (inl same) = inr (inl (cc, cc))
    by_test true (some x) (inl same) = elim (Bool-cases (ltb x.1.received_at w.received_at)) [
      | inl less ↦ inr (inl (ground arith, ground arith))
      | inr not_less ↦ inl (ground arith)
    ]

newest-In-none :
    (p : BlockKey → Bool) (d : Dict BlockKey Entry) {k : BlockKey} {e : Entry}
    → newest p none d ≡ some (k, e)
    → In k e d
newest-In-none p d h = elim (newest-In p none d h) [ inl absent ↦ absurd (cc) | inr held ↦ held ]

is_set-false : (error : Option String) → is_set error ≡ false → (error ≡ none) ⊎ (error ≡ some "")
is_set-false none h = inl refl
is_set-false (some s) h = inr (ap some ((string_eq.beq_iff s "").0 (ground arith)))

-- What follows the loop answers with registers only if the entry reports no error and is young
-- enough.
answer-registers :
    (max_stale : ℕ) (r : Request) (now : ℕ) (k : BlockKey) (e : Entry) {regs : List ℕ}
    → covers r k ≡ true
    → answer max_stale r now (some (k, e)) ≡ registers regs
    → ((e.error ≡ none) ⊎ (e.error ≡ some ""))
      × (now ≤ e.received_at + max_stale)
      × ((block : List ℕ) × (e.registers_ ≡ some block) × IsPart r k.base block regs)
answer-registers max_stale r now k e {regs} covering_ h =
    let (block, held, same) =
      slice-registers e.registers_ (offset_in r.addr k.base) r.count (ground arith) in
    (
      is_set-false e.error (ground arith),
      ground arith,
      (block, held, subst (IsPart r k.base block) same (slice-IsPart r k block covering_)),
    )

-- A read that is answered with registers has them from the newest update of a block that covers it:
-- that update is in the cache, no covering one was received later, and the registers are its
-- registers from the address of the read on. The stream is up, the update reported no error, and it
-- was received no longer ago than the staleness limit.
pub cache_lookup-IsAnswered :
    (c : BlockCache) (r : Request) (now : ℕ) {regs : List ℕ}
    → cache_lookup c r now ≡ registers regs
    → (k : BlockKey) × (e : Entry) × IsAnswered c r now regs k e
unfolding cache_lookup
cache_lookup-IsAnswered c r now {regs} h =
    go c.stream_error refl (newest (covers r) none c.entries) refl h
  where
    go :
        (down : Option String)
        → c.stream_error ≡ down
        → (best : Option (BlockKey × Entry)) → newest (covers r) none c.entries ≡ best
        → unless_down down (answer c.max_stale r now best) ≡ registers regs
        → (k : BlockKey) × (e : Entry) × IsAnswered c r now regs k e
    go (some s) down best found h = absurd (cc)
    go none down none found h = absurd (cc)
    go none down (some (k, e)) found h =
        let passes = subst (Passes (covers r)) found (newest-Passes (covers r) none c.entries tt) in
        let (not_failed, not_stale, part) = answer-registers c.max_stale r now k e passes h in
        (
          k,
          e,
          record {
            stream_up = down;
            newest_held = record {
              held = newest-In-none (covers r) c.entries found;
              covering = passes;
              none_newer =
                  subst (λ x. All (λ b. covers r b.0 ≡ true → Newer (some b) x) c.entries) found
                    (newest-Newer (covers r) none c.entries).1;
            };
            not_failed = not_failed;
            not_stale = not_stale;
            part = part;
          },
        )
