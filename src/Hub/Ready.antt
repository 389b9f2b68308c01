-- ===== src/Hub/Ready.antt =====
-- hub_client.py: what a poller reads through a connection that is ready and receives its updates.
use nd45_dtsu666_converter.Pollers.{registers, checked}
use nd45_dtsu666_converter.Hub.{
  cache_lookup, add_count, hub_client, offset_in, answer, Request, Entry, covers, better,
  BlockCache, block_key_eq, is_set, BlockKey, newest,
}
use nd45_dtsu666_converter.Base.Int.{negsuc, pos, leb_ℤ, ℤ}
use nd45_dtsu666_converter.Base.{
  ok, arith, String, length-drop, length-take, drop, take, ◌∷◌, [], List, some, none, Option, false,
  true, Bool, inr, inl, ◌∙◌, ap, sym, refl, ◌≡◌, ◌≤◌, ◌+◌, ℕ, contains, is_some, Dict, All,
  Bool-cases, string_eq, nat_eq, ◌==◌, if◌then◌else◌, ltb, length,
}

-- An entry without an error, with as many registers as its block, and young at each reading of the
-- clock.
abbrev pub Live : ℕ → (ℤ → ℕ → ℕ → ℕ) → BlockKey × Entry → Type 0
Live max_stale clock (k, e) =
    (is_set e.error ≡ false)
    × ((regs : List ℕ) × (e.registers_ ≡ some regs) × (length regs ≡ k.count))
    × ((addr : ℤ) (count slave : ℕ) → clock addr count slave ≤ e.received_at + max_stale)

-- The stream is up, and every entry is live.
pub record IsLive (c : BlockCache) (clock : ℤ → ℕ → ℕ → ℕ) : Type 0 where
  pub up : c.stream_error ≡ none
  pub live : All (Live c.max_stale clock) c.entries

-- What the loop has found, if anything, covers the request and is live.
abbrev Chosen : Request → ℕ → (ℤ → ℕ → ℕ → ℕ) → Option (BlockKey × Entry) → Type 0
Chosen r max_stale clock none = Unit
Chosen r max_stale clock (some b) = (covers r b.0 ≡ true) × Live max_stale clock b

module _ (r : Request) (max_stale : ℕ) (clock : ℤ → ℕ → ℕ → ℕ) where
  better-Chosen :
      (best : Option (BlockKey × Entry)) (b : BlockKey × Entry) (t : Bool)
      → covers r b.0 ≡ t
      → Chosen r max_stale clock best
      → Live max_stale clock b
      → Chosen r max_stale clock (if t then better best b else best)
  better-Chosen best b false p h l = h
  better-Chosen none b true p h l = (p, l)
  better-Chosen (some x) b true p h l = elim (Bool-cases (ltb x.1.received_at b.1.received_at)) [
    | inl newer ↦ rw newer (p, l)
    | inr older ↦ rw older h
  ]

  newest-Chosen :
      (best : Option (BlockKey × Entry)) (d : Dict BlockKey Entry)
      → Chosen r max_stale clock best
      → All (Live max_stale clock) d
      → Chosen r max_stale clock (newest (covers r) best d)
  unfolding newest
  newest-Chosen best [] h l = h
  newest-Chosen best ((k, e) ∷ d) h l =
      newest-Chosen (if covers r k then better best (k, e) else best) d
        (better-Chosen best (k, e) (covers r k) refl h l.0) l.1

-- The loop finds a block if one covers the request.
better-found :
    (best : Option (BlockKey × Entry)) (b : BlockKey × Entry) → is_some (better best b) ≡ true
better-found none b = refl
better-found (some x) b = elim (Bool-cases (ltb x.1.received_at b.1.received_at)) [
  | inl newer ↦ rw newer refl
  | inr older ↦ rw older refl
]

newest-keeps_some :
    (p : BlockKey → Bool) (best : Option (BlockKey × Entry)) (d : Dict BlockKey Entry)
    → is_some best ≡ true
    → is_some (newest p best d) ≡ true
unfolding newest
newest-keeps_some p best [] h = h
newest-keeps_some p best ((k, e) ∷ d) h =
    newest-keeps_some p (if p k then better best (k, e) else best) d (go (p k))
  where
    go : (t : Bool) → is_some (if t then better best (k, e) else best) ≡ true
    go true = better-found best (k, e)
    go false = h

newest-found :
    (p : BlockKey → Bool) (best : Option (BlockKey × Entry)) (k : BlockKey)
    (d : Dict BlockKey Entry)
    → p k ≡ true
    → contains k d ≡ true
    → is_some (newest p best d) ≡ true
unfolding newest
newest-found p best k [] pk h = absurd (cc)
newest-found p best k ((j, e) ∷ d) pk h = elim (Bool-cases (k == j)) [
  | inl same ↦
      let pj : p j ≡ true = ap p (sym ((block_key_eq.beq_iff k j).0 same)) ∙ pk in
      rw pj (newest-keeps_some p (better best (j, e)) d (better-found best (j, e)))
  | inr other ↦ newest-found p (if p j then better best (j, e) else best) k d pk (rw other at h)
]

-- A request that lies in a block ends before the block does.
offset_fits :
    (addr base : ℤ) (count size : ℕ)
    → leb_ℤ base addr ≡ true
    → leb_ℤ (add_count addr count) (add_count base size) ≡ true
    → offset_in addr base + count ≤ size
offset_fits (pos a) (pos b) count size low high = ground arith
offset_fits (pos a) (negsuc b) count size low high = ground arith
offset_fits (negsuc a) (pos b) count size low high = ground arith
offset_fits (negsuc a) (negsuc b) count size low high = ground arith

slice-checked :
    (r : Request) (k : BlockKey) (regs : List ℕ)
    → covers r k ≡ true
    → length regs ≡ k.count
    → (xs : List ℕ) × (checked
          (registers (take r.count (drop (offset_in r.addr k.base) regs)))
          r.count
        ≡ ok xs)
slice-checked r k regs c l =
    let xs = take r.count (drop (offset_in r.addr k.base) regs) in
    let fits : offset_in r.addr k.base + r.count ≤ k.count =
      offset_fits r.addr k.base r.count k.count (ground (arith, c)) (ground (arith, c)) in
    let enough : ltb (length xs) r.count ≡ false = ground (
      arith,
      fits,
      length-take r.count (drop (offset_in r.addr k.base) regs),
      length-drop (offset_in r.addr k.base) regs,
      l,
    ) in
    (xs, rw enough refl)

answer-checked :
    (r : Request) (max_stale : ℕ) (clock : ℤ → ℕ → ℕ → ℕ) (best : Option (BlockKey × Entry))
    → is_some best ≡ true
    → Chosen r max_stale clock best
    → (xs : List ℕ) × (checked (answer max_stale r (clock r.addr r.count r.slave) best) r.count
        ≡ ok xs)
answer-checked r max_stale clock none some_ h = absurd (cc)
answer-checked r max_stale clock (some (k, e)) some_ (c, (fine, (regs, there, size), young)) =
    let fresh : ltb (e.received_at + max_stale) (clock r.addr r.count r.slave) ≡ false =
      ground (arith, young r.addr r.count r.slave) in
    let (xs, read) = slice-checked r k regs c size in (xs, rw fine (rw fresh (rw there read)))

-- A read that lies in a declared block is answered, with as many registers as it asks for.
pub hub_client-checked :
    (c : BlockCache) (link : String) (fc : ℕ) (clock : ℤ → ℕ → ℕ → ℕ) (addr : ℤ) (count slave : ℕ)
    (k : BlockKey)
    → IsLive c clock
    → contains k c.entries ≡ true
    → covers (record { link = link; slave = slave; fc = fc; addr = addr; count = count }) k ≡ true
    → (xs : List ℕ) × (checked (hub_client c link fc clock addr count slave) count ≡ ok xs)
unfolding cache_lookup
hub_client-checked c link fc clock addr count slave k h there inside =
    let r : Request = record { link = link; slave = slave; fc = fc; addr = addr; count = count } in
    let best = newest (covers r) none c.entries in
    let (xs, read) =
      answer-checked r c.max_stale clock best
        (newest-found (covers r) none k c.entries inside there)
        (newest-Chosen r c.max_stale clock none c.entries tt h.live) in
    (xs, rw (h.up) read)
