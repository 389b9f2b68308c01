-- ===== src/Hub.antt =====
-- src/nd45_dtsu666/hub_client.py: a source that is read through modbus-hub. The hub pushes blocks over
-- a stream; the cache keeps the last update of each block and answers the reads of the pollers.
-- The gRPC channel is third-party: what arrives on the stream is the input of the model. The text of
-- an error is kept only where the code tests it.
pub mod Newest
pub mod Failsafe
pub mod Slice
pub mod Answered
pub mod Connection
pub mod Ready
pub mod Setup
pub mod Polled
use nd45_dtsu666_converter.Registers.{or_empty, ReadGroup, SourceSide}
use nd45_dtsu666_converter.Base.{
  other_error, value_error, err, ok, arith, ◌∷◌, [], List, some, none, Option, ◌&&◌, not, false,
  true, Bool, ◌↔◌, ◌≡◌, String, ◌*◌, ◌-◌, ◌+◌, Result, insert, Dict, drop, take, if◌then◌else◌, eqb,
  leb, ltb, ℕ, string_eq, nat_eq, ◌>>=◌, ◌==◌, Eq,
}
use nd45_dtsu666_converter.Base.Int.{negsuc, eqb_ℤ, leb_ℤ, sub_ℕ, neg_part, pos_part, ℤ, pos}
use nd45_dtsu666_converter.Pollers.Nd45
use nd45_dtsu666_converter.Pollers.{
  wire_base, Client, unit_of, registers, error_response, raised, Response,
}

abbrev pub fc_holding : ℕ
fc_holding = 3

abbrev pub fc_input : ℕ
fc_input = 4

-- `base` is an address on the wire, after the offset of the map.
pub record BlockKey : Type 0 where
  pub link : String
  pub unit_id : ℕ
  pub fc : ℕ
  pub base : ℤ
  pub count : ℕ

abbrev pub key_beq : BlockKey → BlockKey → Bool
key_beq a b =
    a.link == b.link
    && (eqb a.unit_id b.unit_id && (eqb a.fc b.fc && (eqb_ℤ a.base b.base && eqb a.count b.count)))

eqb_ℤ_iff : (a b : ℤ) → (eqb_ℤ a b ≡ true) ↔ (a ≡ b)
eqb_ℤ_iff (pos a) (pos b) = (λ h. ground arith, λ h. ground arith)
eqb_ℤ_iff (negsuc a) (negsuc b) = (λ h. ground arith, λ h. ground arith)
eqb_ℤ_iff (pos a) (negsuc b) = (λ h. absurd (cc), λ h. absurd (cc))
eqb_ℤ_iff (negsuc a) (pos b) = (λ h. absurd (cc), λ h. absurd (cc))

pub key_beq_iff : (a b : BlockKey) → (key_beq a b ≡ true) ↔ (a ≡ b)
key_beq_iff a b = (
  λ h. ground (arith, string_eq.beq_iff a.link b.link, eqb_ℤ_iff a.base b.base),
  λ h. ground (arith, string_eq.beq_iff a.link b.link, eqb_ℤ_iff a.base b.base),
)

instance abbrev pub block_key_eq : Eq BlockKey
block_key_eq = record { beq = key_beq; beq_iff = key_beq_iff }

-- z + n
abbrev pub add_count : ℤ → ℕ → ℤ
add_count z n = sub_ℕ (pos_part z + n) (neg_part z)

-- One read: `link`, `slave`, function code, address, count.
pub record Request : Type 0 where
  pub link : String
  pub slave : ℕ
  pub fc : ℕ
  pub addr : ℤ
  pub count : ℕ

-- `BlockKey.covers`
abbrev pub covers : Request → BlockKey → Bool
covers r k =
    k.link == r.link
    && (eqb k.unit_id r.slave
        && (eqb k.fc r.fc
            && (leb_ℤ k.base r.addr
                && leb_ℤ (add_count r.addr r.count) (add_count k.base k.count))))

pub record Entry : Type 0 where
  pub registers_ : Option (List ℕ)
  pub received_at : ℕ
  pub error : Option String

pub record BlockCache : Type 0 where
  pub entries : Dict BlockKey Entry
  pub max_stale : ℕ
  pub stream_error : Option String

unfoldable pub new_cache : ℕ → BlockCache
new_cache max_stale = record {
  entries = [];
  max_stale = max_stale;
  stream_error = some "not connected yet";
}

-- `if error`
abbrev pub is_set : Option String → Bool
is_set none = false
is_set (some e) = not (e == "")

abbrev pub list_or_empty : Option (List ℕ) → List ℕ
list_or_empty none = []
list_or_empty (some xs) = xs

-- the entry that an update stores
abbrev pub entry_of : Option (List ℕ) → Option String → ℕ → Entry
entry_of regs error now = record {
  registers_ = if is_set error then none else some (list_or_empty regs);
  received_at = now;
  error = error;
}

-- `BlockCache.update`
unfoldable pub cache_update :
    BlockCache → BlockKey → Option (List ℕ) → Option String → ℕ → BlockCache
cache_update c key regs error now = record c {
  entries = insert key (entry_of regs error now) c.entries;
}

-- `set_stream_error`
unfoldable pub set_stream_error : BlockCache → Option String → BlockCache
set_stream_error c error = record c { stream_error = error }

-- one round of the loop of `lookup`
abbrev pub better : Option (BlockKey × Entry) → BlockKey × Entry → Option (BlockKey × Entry)
better none candidate = some candidate
better (some best) candidate =
    if ltb best.1.received_at candidate.1.received_at then some candidate else some best

-- that loop: the covering entry received last, the first of them in the dict if there are several
unfoldable pub newest :
    (BlockKey → Bool) → Option (BlockKey × Entry) → Dict BlockKey Entry → Option (BlockKey × Entry)
newest p best [] = best
newest p best ((k, e) ∷ d) = newest p (if p k then better best (k, e) else best) d

-- `addr - key.base`, where it is not negative
abbrev pub offset_in : ℤ → ℤ → ℕ
offset_in addr base = pos_part addr + neg_part base - (pos_part base + neg_part addr)

-- `entry.registers[offset:offset + count]`, after the assertion
abbrev pub slice : Option (List ℕ) → ℕ → ℕ → Response
slice none offset count = raised other_error
slice (some regs) offset count = registers (take count (drop offset regs))

-- what follows the loop
abbrev pub answer : ℕ → Request → ℕ → Option (BlockKey × Entry) → Response
answer max_stale r now none = error_response
answer max_stale r now (some (k, e)) =
    if is_set e.error
    then error_response
    else if ltb (e.received_at + max_stale) now
    then error_response
    else slice e.registers_ (offset_in r.addr k.base) r.count

-- `if self._stream_error is not None`
abbrev pub unless_down : Option String → Response → Response
unless_down none response = response
unless_down (some _) response = error_response

-- `BlockCache.lookup`, at the reading `now` of the clock
unfoldable pub cache_lookup : BlockCache → Request → ℕ → Response
cache_lookup c r now =
    unless_down c.stream_error (answer c.max_stale r now (newest (covers r) none c.entries))

-- `staleness_threshold`
unfoldable pub staleness_threshold : ℕ → ℕ → ℕ
staleness_threshold poll_interval timeout =
    if leb timeout (poll_interval * 3) then poll_interval * 3 else timeout

pub data SourceType : Type 0 where
  nd45 huawei etango : SourceType

abbrev pub fc_of : SourceType → ℕ
fc_of nd45 = fc_holding
fc_of huawei = fc_holding
fc_of etango = fc_input

-- the two loops of `blocks_for_source`
abbrev pub fixed_blocks : String → ℕ → List (ℕ × ℕ) → List BlockKey
fixed_blocks link unit_id [] = []
fixed_blocks link unit_id ((base, count) ∷ groups) =
    record { link = link; unit_id = unit_id; fc = fc_holding; base = pos base; count = count }
    ∷ fixed_blocks link unit_id groups

abbrev pub declared_blocks : String → ℕ → ℕ → ℤ → List ReadGroup → List BlockKey
declared_blocks link unit_id fc offset [] = []
declared_blocks link unit_id fc offset (g ∷ gs) =
    record {
      link = link;
      unit_id = unit_of g.unit_id unit_id;
      fc = fc;
      base = wire_base g.base offset;
      count = g.count;
    }
    ∷ declared_blocks link unit_id fc offset gs

-- `if not blocks: raise ValueError`
abbrev pub some_blocks : List BlockKey → Result (List BlockKey)
some_blocks [] = err value_error
some_blocks (b ∷ bs) = ok (b ∷ bs)

module _ {F : Type 0} where
  unfoldable pub blocks_for_source : SourceType → SourceSide F → ℕ → String → Result (List BlockKey)
  blocks_for_source nd45 source unit_id link = ok (fixed_blocks link unit_id Nd45.read_groups)
  blocks_for_source huawei source unit_id link =
      some_blocks (
        declared_blocks link unit_id fc_holding source.address_offset (or_empty source.read_groups))
  blocks_for_source etango source unit_id link =
      some_blocks
        (declared_blocks link unit_id fc_input source.address_offset (or_empty source.read_groups))

-- A `HubClient` over a cache, for one of its two read methods. Its reads do not wait, so the cache is
-- the same for all reads of a poll; `clock` gives the reading of the clock at each.
abbrev pub hub_client : BlockCache → String → ℕ → (ℤ → ℕ → ℕ → ℕ) → Client
hub_client c link fc clock addr count slave =
    cache_lookup c (record { link = link; slave = slave; fc = fc; addr = addr; count = count })
      (clock addr count slave)
