-- ===== src/Server/Activity.antt =====
-- dtsu_server.py: `RtuActivity`, the read requests that the recording datastore has seen. What the
-- endpoint reads of its summary is in Metrics; the recent reads are for display.
use nd45_dtsu666_converter.Base.Int.{sub_ℕ, pos_part}
use nd45_dtsu666_converter.Base.{
  arith, ◌++◌, ◌∷◌, [], List, some, none, Option, ◌&&◌, true, Bool, ◌↔◌, ◌≡◌, ◌+◌, suc, zero,
  insert, lookup, Dict, Eq, string_eq, nat_eq, if◌then◌else◌, eqb, ltb, ℕ,
}
use nd45_dtsu666_converter.Server.Frames.{count_capped}
use nd45_dtsu666_converter.Canonical.Spread.{deque_append}

-- a tracked block: (fc, address, count)
pub record Block : Type 0 where
  pub fc : ℕ
  pub address : ℕ
  pub count : ℕ

abbrev pub block_eq : Block → Block → Bool
block_eq a b = eqb a.fc b.fc && (eqb a.address b.address && eqb a.count b.count)

pub block_eq_iff : (a b : Block) → (block_eq a b ≡ true) ↔ (a ≡ b)
block_eq_iff a b = (λ h. ground arith, λ h. ground arith)

instance abbrev pub block_key : Eq Block
block_key = record { beq = block_eq; beq_iff = block_eq_iff }

-- a register: (fc, address)
pub record RegisterKey : Type 0 where
  pub fc : ℕ
  pub address : ℕ

abbrev pub register_eq : RegisterKey → RegisterKey → Bool
register_eq a b = eqb a.fc b.fc && eqb a.address b.address

pub register_eq_iff : (a b : RegisterKey) → (register_eq a b ≡ true) ↔ (a ≡ b)
register_eq_iff a b = (λ h. ground arith, λ h. ground arith)

instance abbrev pub register_key : Eq RegisterKey
register_key = record { beq = register_eq; beq_iff = register_eq_iff }

pub record RtuActivity : Type 0 where
  pub total : ℕ
  pub last_ts : Option ℕ
  pub blocks : Dict Block ℕ
  pub max_blocks : ℕ
  pub recent : List (ℕ × Block)
  pub recent_maxlen : ℕ
  pub times : List ℕ
  pub rate_window : ℕ
  pub addr_last_seen : Dict RegisterKey ℕ

unfoldable pub new_activity : ℕ → ℕ → ℕ → RtuActivity
new_activity recent_maxlen rate_window max_blocks = record {
  total = 0;
  last_ts = none;
  blocks = [];
  max_blocks = max_blocks;
  recent = [];
  recent_maxlen = recent_maxlen;
  times = [];
  rate_window = rate_window;
  addr_last_seen = [];
}

-- `while self._times and ts - self._times[0] > self._rate_window: popleft()`
unfoldable pub expire : ℕ → ℕ → List ℕ → List ℕ
expire ts window [] = []
expire ts window (t ∷ times) =
    if ltb window (pos_part (sub_ℕ ts t)) then expire ts window times else t ∷ times

-- `for a in range(address, address + count)`
unfoldable pub stamp_range : ℕ → ℕ → ℕ → ℕ → Dict RegisterKey ℕ → Dict RegisterKey ℕ
stamp_range fc address zero ts seen = seen
stamp_range fc address (suc n) ts seen =
    stamp_range fc (address + 1) n ts (insert (record { fc = fc; address = address }) ts seen)

unfoldable pub record_read : RtuActivity → ℕ → ℕ → ℕ → ℕ → RtuActivity
record_read s fc address count ts =
    let block : Block = record { fc = fc; address = address; count = count } in
    record s {
      total = s.total + 1;
      last_ts = some ts;
      blocks = count_capped s.max_blocks block s.blocks;
      recent = deque_append s.recent_maxlen s.recent (ts, block);
      times = expire ts s.rate_window (s.times ++ ts ∷ []);
      addr_last_seen = stamp_range fc address count ts s.addr_last_seen;
    }

unfoldable pub last_seen : RtuActivity → ℕ → ℕ → Option ℕ
last_seen s fc address = lookup (record { fc = fc; address = address }) s.addr_last_seen
