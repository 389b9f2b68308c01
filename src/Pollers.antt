-- ===== src/Pollers.antt =====
-- What the three source pollers share: the answers of a Modbus client, the blocks of a poll, the
-- memory of bad channels, and the log lines that depend on it.
pub mod Nd45
pub mod Huawei
pub mod Etango
use nd45_dtsu666_converter.Registers.{ReadGroup, SourcePoint, width}
use nd45_dtsu666_converter.Base.Int.{sub_ℕ, neg_part, pos_part, ℤ}
use nd45_dtsu666_converter.Base.{
  type_error, value_error, ◌>>=◌, Floats, poll_error, key_error, err, ok, ◌∷◌, [], List, some, none,
  Option, ◌&&◌, false, Bool, String, ◌-◌, ◌+◌, Result, Exc, raise_if, ◌>>◌, mem, drop, take, length,
  string_eq, nat_eq, ◌==◌, if◌then◌else◌, leb, ltb, ℕ,
}

-- The answer to one read request: a response whose `isError()` holds, the registers that arrived
-- (possibly fewer than asked for), or an exception of the transport.
pub data Response : Type 0 where
  error_response : Response
  registers : List ℕ → Response
  raised : Exc → Response

-- The client during one poll: what it answers to a request (wire address, count, unit id). It is
-- pymodbus or the hub, so it is an argument of the model.
abbrev pub Client : Type 0
Client = ℤ → ℕ → ℕ → Response

-- `groups`: blocks read so far, each with its base address
abbrev pub Groups : Type 0
Groups = List (ℕ × List ℕ)

-- One read and its two checks: the registers, or what is raised.
abbrev pub checked : Response → ℕ → Result (List ℕ)
checked error_response count = err poll_error
checked (registers regs) count = raise_if (ltb (length regs) count) poll_error >> ok regs
checked (raised e) count = err e

-- `extract_registers(addr, groups, width)` of the Huawei and e2TANGO pollers
unfoldable pub extract_registers : ℕ → Groups → ℕ → Result (List ℕ)
extract_registers addr [] width = err key_error
extract_registers addr ((base, regs) ∷ groups) width =
    if leb base addr && leb (addr - base + width) (length regs)
    then ok (take width (drop (addr - base) regs))
    else extract_registers addr groups width

-- `overrange_seen`: None, or a set of points that is already reported as bad
abbrev pub Seen : Type 0
Seen = Option (List String)

abbrev pub seen_has : Seen → String → Bool
seen_has none key = false
seen_has (some ks) key = mem key ks

-- `seen.add(key)`, `seen.discard(key)`
abbrev pub seen_add : Seen → String → Seen
seen_add none key = none
seen_add (some ks) key = if mem key ks then some ks else some (key ∷ ks)

abbrev pub remove : String → List String → List String
remove key [] = []
remove key (k ∷ ks) = let rest = remove key ks in if key == k then rest else k ∷ rest

abbrev pub seen_discard : Seen → String → Seen
seen_discard none key = none
seen_discard (some ks) key = some (remove key ks)

-- The log lines of a poll that depend on the memory of bad channels.
pub data LogLine : Type 0 where
  bad_channel back_in_range : String → LogLine

-- `group.base + source.address_offset`
abbrev pub wire_base : ℕ → ℤ → ℤ
wire_base base offset = sub_ℕ (base + pos_part offset) (neg_part offset)

-- `group.unit_id if group.unit_id is not None else slave`
abbrev pub unit_of : Option ℕ → ℕ → ℕ
unit_of none slave = slave
unit_of (some u) slave = u

-- The blocks of a source whose map declares them, in order: the loop of `read_groups`, which the
-- Huawei and the e2TANGO poller each have, over function codes 3 and 4.
unfoldable pub read_declared : Client → ℤ → ℕ → List ReadGroup → Result Groups
read_declared client offset slave [] = ok []
read_declared client offset slave (g ∷ gs) = do
  regs ← checked (client (wire_base g.base offset) g.count (unit_of g.unit_id slave)) g.count
  groups ← read_declared client offset slave gs
  ok ((g.base, regs) ∷ groups)

-- `extract_registers(pt.addr, groups, pt.width)`; without an address the subtraction raises
-- `TypeError`, if there is a block to subtract from
abbrev pub registers_of : {F : Type 0} ⦃fl : Floats F⦄ → SourcePoint F → Groups → Result (List ℕ)
registers_of pt groups = width pt >>= λ w. elim pt.addr [
  | none ↦ elim groups [ [] ↦ err key_error | _ ∷ _ ↦ err type_error ]
  | some a ↦ extract_registers a groups w
]

-- `validate_source_coverage` of both: a source without read blocks is refused.
abbrev pub require_groups : Option (List ReadGroup) → Result (Unit {0})
require_groups none = err value_error
require_groups (some []) = err value_error
require_groups (some (_ ∷ _)) = ok tt
