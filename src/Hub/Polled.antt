-- ===== src/Hub/Polled.antt =====
-- hub_client.py and the pollers: the blocks that are declared for a source, and those that are read.
use nd45_dtsu666_converter.Hub.Connection.Reach.{Reaches-IsConsistent}
use nd45_dtsu666_converter.Hub.Ready.{hub_client-checked, IsLive}
use nd45_dtsu666_converter.Hub.Connection.{
  failure, message, starting, start_stream, Connection, closing, next, Reaches, Backoff, on_message,
  close_connection, Step, on_failure, new_connection, here,
}
use nd45_dtsu666_converter.Pollers.Nd45.{read_blocks}
use nd45_dtsu666_converter.Registers.{or_empty, SourceSide, ReadGroup}
use nd45_dtsu666_converter.Pollers.{unit_of, read_declared, Client, wire_base, Groups}
use nd45_dtsu666_converter.Hub.{
  block_key_eq, hub_client, fc_holding, add_count, blocks_for_source, fc_input, fc_of, fixed_blocks,
  covers, some_blocks, declared_blocks, nd45, BlockCache, BlockKey, etango, SourceType, huawei,
}
use nd45_dtsu666_converter.Base.Int.{pos, ℤ, leb_ℤ}
use mathlib.Core.Path.{subst}
use nd45_dtsu666_converter.Base.{
  ok, arith, ◌∷◌, [], List, false, true, Bool, ◌∙◌, sym, refl, ◌≡◌, String, ℕ, Result, contains,
  All-imp, All, Floats, string_eq, nat_eq, if◌then◌else◌,
}
use nd45_dtsu666_converter.Pollers.Nd45
use nd45_dtsu666_converter.Pollers.Huawei
use nd45_dtsu666_converter.Pollers.Etango

-- The block reads of the poller of a source.
unfoldable pub source_reads :
    {F : Type 0} ⦃fl : Floats F⦄ → SourceType → Client → SourceSide F → ℕ → Result Groups
unfolding Nd45.read_blocks Huawei.read_groups Etango.read_groups
source_reads nd45 client source unit_id = Nd45.read_blocks client unit_id Nd45.read_groups
source_reads huawei client source unit_id = Huawei.read_groups client source unit_id
source_reads etango client source unit_id = Etango.read_groups client source unit_id

leb_ℤ_refl : (z : ℤ) → leb_ℤ z z ≡ true
leb_ℤ_refl z = ground arith

covers_itself :
    (link : String) (unit_id fc : ℕ) (base : ℤ) (count : ℕ)
    → covers
        (record { link = link; slave = unit_id; fc = fc; addr = base; count = count })
        (record { link = link; unit_id = unit_id; fc = fc; base = base; count = count })
      ≡ true
covers_itself link unit_id fc base count =
    ground (arith, string_eq.beq_iff link link, leb_ℤ_refl base, leb_ℤ_refl (add_count base count))

module _ (c : BlockCache) (link : String) (fc : ℕ) (clock : ℤ → ℕ → ℕ → ℕ)
    (h : IsLive c clock) where
  abbrev IsThere : BlockKey → Type 0
  IsThere k = contains k c.entries ≡ true

  read_declared-ok :
      (offset : ℤ) (unit_id : ℕ) (gs : List ReadGroup)
      → All IsThere (declared_blocks link unit_id fc offset gs)
      → (groups : Groups) × (read_declared (hub_client c link fc clock) offset unit_id gs
          ≡ ok groups)
  unfolding read_declared
  read_declared-ok offset unit_id [] there = ([], refl)
  read_declared-ok offset unit_id (g ∷ gs) there =
      let (xs, first) =
        hub_client-checked c link fc clock (wire_base g.base offset) g.count
          (unit_of g.unit_id unit_id)
          (record {
            link = link;
            unit_id = unit_of g.unit_id unit_id;
            fc = fc;
            base = wire_base g.base offset;
            count = g.count;
          })
          h there.0
          (covers_itself link (unit_of g.unit_id unit_id) fc (wire_base g.base offset) g.count) in
      let (more, rest) = read_declared-ok offset unit_id gs there.1 in
      ((g.base, xs) ∷ more, rw first (rw rest refl))

module _ (c : BlockCache) (link : String) (clock : ℤ → ℕ → ℕ → ℕ) (h : IsLive c clock) where
  read_blocks-ok :
      (unit_id : ℕ) (gs : List (ℕ × ℕ))
      → All (λ k. contains k c.entries ≡ true) (fixed_blocks link unit_id gs)
      → (groups : Groups) × (Nd45.read_blocks (hub_client c link fc_holding clock) unit_id gs
          ≡ ok groups)
  unfolding Nd45.read_blocks
  read_blocks-ok unit_id [] there = ([], refl)
  read_blocks-ok unit_id ((base, count) ∷ gs) there =
      let (xs, first) =
        hub_client-checked c link fc_holding clock (pos base) count unit_id
          (record {
            link = link;
            unit_id = unit_id;
            fc = fc_holding;
            base = pos base;
            count = count;
          })
          h there.0 (covers_itself link unit_id fc_holding (pos base) count) in
      let (more, rest) = read_blocks-ok unit_id gs there.1 in
      ((base, xs) ∷ more, rw first (rw rest refl))

-- A connection keeps the blocks that it was made with.
blocks-if :
    (t : Bool) (c d : Connection) → d.blocks ≡ c.blocks → (if t then c else d).blocks ≡ c.blocks
blocks-if true c d h = refl
blocks-if false c d h = h

Step-blocks : {b : Backoff} {c d : Connection} → Step b c d → d.blocks ≡ c.blocks
unfolding start_stream close_connection on_message on_failure
Step-blocks (starting c) = blocks-if c.closed c _ (blocks-if c.running c _ refl)
Step-blocks (message c m now running) = refl
Step-blocks (failure c e running) = refl
Step-blocks (closing c) = blocks-if c.closed c _ refl

Reaches-blocks :
    {b : Backoff} (blocks : List BlockKey) (max_stale : ℕ) {c : Connection}
    → Reaches b (new_connection blocks max_stale) c
    → c.blocks ≡ blocks
unfolding new_connection
Reaches-blocks blocks max_stale here = refl
Reaches-blocks blocks max_stale (next r s) = Step-blocks s ∙ Reaches-blocks blocks max_stale r

Reaches-there :
    {b : Backoff} (blocks : List BlockKey) (max_stale : ℕ) {c : Connection}
    → Reaches b (new_connection blocks max_stale) c
    → c.ready ≡ true
    → All (λ k. contains k c.cache.entries ≡ true) blocks
Reaches-there blocks max_stale {c} r ready =
    let state = Reaches-IsConsistent blocks max_stale r in
    let none_awaited = state.complete ready in
    subst (All (λ k. contains k c.cache.entries ≡ true)) (Reaches-blocks blocks max_stale r)
      (All-imp _ _ c.blocks (λ k p. rw none_awaited at p) state.known)

some_blocks-same :
    (bs : List BlockKey) {blocks : List BlockKey} → some_blocks bs ≡ ok blocks → bs ≡ blocks
some_blocks-same [] h = absurd (cc)
some_blocks-same (b ∷ bs) h = cc

module _ {F : Type 0} ⦃fl : Floats F⦄ where
  -- A source whose blocks are declared to modbus-hub is read in full: once the connection is ready, a
  -- poll gets every block that the poller asks for, as long as the stream is up and each update in the
  -- cache has no error, the number of registers of its block, and an age within the limit.
  pub ready_source_reads :
      {b : Backoff} (type_ : SourceType) (source : SourceSide F) (unit_id : ℕ) (link : String)
      (max_stale : ℕ) (clock : ℤ → ℕ → ℕ → ℕ) {blocks : List BlockKey} {c : Connection}
      → blocks_for_source type_ source unit_id link ≡ ok blocks
      → Reaches b (new_connection blocks max_stale) c
      → c.ready ≡ true
      → IsLive c.cache clock
      → (groups : Groups) × (source_reads type_
            (hub_client c.cache link (fc_of type_) clock)
            source
            unit_id
          ≡ ok groups)
  unfolding blocks_for_source source_reads
  ready_source_reads nd45 source unit_id link max_stale clock {c} declared r ready h =
      let same : fixed_blocks link unit_id Nd45.read_groups ≡ _ = cc in
      read_blocks-ok c.cache link clock h unit_id Nd45.read_groups (
        subst (All (λ k. contains k c.cache.entries ≡ true)) (sym same)
          (Reaches-there _ max_stale r ready))
  ready_source_reads huawei source unit_id link max_stale clock {c} declared r ready h =
      read_declared-ok c.cache link fc_holding clock h source.address_offset unit_id
        (or_empty source.read_groups)
        (subst (All (λ k. contains k c.cache.entries ≡ true)) (sym (some_blocks-same _ declared))
          (Reaches-there _ max_stale r ready))
  ready_source_reads etango source unit_id link max_stale clock {c} declared r ready h =
      read_declared-ok c.cache link fc_input clock h source.address_offset unit_id
        (or_empty source.read_groups)
        (subst (All (λ k. contains k c.cache.entries ≡ true)) (sym (some_blocks-same _ declared))
          (Reaches-there _ max_stale r ready))
