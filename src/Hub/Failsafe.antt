-- ===== src/Hub/Failsafe.antt =====
-- hub_client.py: the round of a bridge that polls through a cache that
-- answers none.
use nd45_dtsu666_converter.Pollers.Nd45.{read_blocks, after_read}
use nd45_dtsu666_converter.Registers.{TargetSide, SourceSide}
use nd45_dtsu666_converter.Datastore.{Datastore}
use nd45_dtsu666_converter.App.{Bridge, poll_round, on_error}
use nd45_dtsu666_converter.Base.Int.{pos, ℤ}
use nd45_dtsu666_converter.Base.{
  poll_error, err, ok, arith, ◌∷◌, [], List, some, none, Option, false, true, Bool, inr, inl, ◌⊎◌,
  ap, refl, ◌≡◌, String, ◌<◌, ◌+◌, ◌>>=◌, values, Dict, All, Floats, Bool-cases, if◌then◌else◌, ltb,
  ℕ, string_eq, nat_eq,
}
use nd45_dtsu666_converter.Hub.{
  hub_client, cache_lookup, fc_holding, answer, BlockCache, unless_down, newest, better,
  block_key_eq, Entry, BlockKey, covers, Request,
}
use nd45_dtsu666_converter.Pollers.{Seen, checked, error_response}
use nd45_dtsu666_converter.Pollers.Nd45

-- The stream is down, or nothing in the cache is young enough at any reading of the clock.
abbrev pub IsExpired : BlockCache → (ℤ → ℕ → ℕ → ℕ) → Type 0
IsExpired c clock =
    ((s : String) × (c.stream_error ≡ some s))
    ⊎ ((addr : ℤ) (count slave : ℕ)
        → All (λ e. e.received_at + c.max_stale < clock addr count slave) (values c.entries))

abbrev Old : ℕ → ℕ → Option (BlockKey × Entry) → Type 0
Old max_stale now none = Unit
Old max_stale now (some b) = b.1.received_at + max_stale < now

newest-Old :
    (p : BlockKey → Bool) (max_stale now : ℕ) (best : Option (BlockKey × Entry))
    (d : Dict BlockKey Entry)
    → Old max_stale now best
    → All (λ e. e.received_at + max_stale < now) (values d)
    → Old max_stale now (newest p best d)
unfolding newest
newest-Old p max_stale now best [] o h = o
newest-Old p max_stale now best ((k, e) ∷ d) o h =
    newest-Old p max_stale now (if p k then better best (k, e) else best) d (round best (p k) o) h.1
  where
    round :
        (best : Option (BlockKey × Entry)) (t : Bool)
        → Old max_stale now best
        → Old max_stale now (if t then better best (k, e) else best)
    round best false o = o
    round none true o = h.0
    round (some x) true o = elim (Bool-cases (ltb x.1.received_at e.received_at)) [
      | inl newer ↦ rw newer h.0
      | inr not_newer ↦ rw not_newer o
    ]

answer-Old :
    (max_stale : ℕ) (r : Request) (now : ℕ) (best : Option (BlockKey × Entry))
    → Old max_stale now best
    → answer max_stale r now best ≡ error_response
answer-Old max_stale r now none o = refl
answer-Old max_stale r now (some (k, e)) o = ground (arith, o)

-- Every read of an expired cache is an error.
expired_read :
    (c : BlockCache) (link : String) (fc : ℕ) (clock : ℤ → ℕ → ℕ → ℕ) (addr : ℤ) (count slave : ℕ)
    → IsExpired c clock
    → hub_client c link fc clock addr count slave ≡ error_response
unfolding cache_lookup
expired_read c link fc clock addr count slave (inl (s, down)) = rw down refl
expired_read c link fc clock addr count slave (inr old) =
    let r : Request = record { link = link; slave = slave; fc = fc; addr = addr; count = count } in
    let now = clock addr count slave in
    go c.stream_error (newest (covers r) none c.entries)
      (newest-Old (covers r) c.max_stale now none c.entries tt (old addr count slave))
  where
    go :
        (down : Option String) (best : Option (BlockKey × Entry))
        → Old c.max_stale (clock addr count slave) best
        → unless_down down (
            answer c.max_stale
              (record { link = link; slave = slave; fc = fc; addr = addr; count = count })
              (clock addr count slave)
              best)
          ≡ error_response
    go none best o =
        answer-Old c.max_stale
          (record { link = link; slave = slave; fc = fc; addr = addr; count = count })
          (clock addr count slave) best o
    go (some s) best o = refl

module _ {F S : Type 0} ⦃fl : Floats F⦄ ⦃ds : Datastore S⦄ where
  -- A poll of the ND45 through an expired cache is rejected, and the round of the bridge that it
  -- ends leaves the served registers and the store, with its time stamp, as they were.
  pub expired_poll_keeps :
      (c : BlockCache) (link : String) (clock : ℤ → ℕ → ℕ → ℕ) (source : SourceSide F) (slave : ℕ)
      (seen : Seen) (sides : List (TargetSide F)) (ct_ratio : F) (b : Bridge F S) (ts now : ℕ)
      → IsExpired c clock
      → let polled = (Nd45.poll_once (hub_client c link fc_holding clock) source slave seen).0 in
        let b' = poll_round sides ct_ratio b polled ts now in
        (polled ≡ err poll_error) × (b'.slave ≡ b.slave) × (b'.store ≡ b.store)
  unfolding Nd45.poll_once Nd45.read_blocks poll_round on_error
  expired_poll_keeps c link clock source slave seen sides ct_ratio b ts now h =
      let first = expired_read c link fc_holding clock (pos 50) 96 slave h in
      let failed : (Nd45.poll_once (hub_client c link fc_holding clock) source slave seen).0
          ≡ err poll_error =
        ap
          (λ r.
            (Nd45.after_read source seen (
              checked r 96 >>= λ regs.
              Nd45.read_blocks (hub_client c link fc_holding clock) slave
                ((818, 2) ∷ (900, 96) ∷ [])
              >>= λ groups. ok ((50, regs) ∷ groups))).0)
          first in
      (
        failed,
        ap (λ p. (poll_round sides ct_ratio b p ts now).slave) failed,
        ap (λ p. (poll_round sides ct_ratio b p ts now).store) failed,
      )
