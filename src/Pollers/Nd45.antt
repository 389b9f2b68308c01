-- ===== src/Pollers/Nd45.antt =====
-- src/nd45_dtsu666/nd45_poller.py: the ND45 source. A poll reads three fixed blocks, decodes every
-- point as float32, and rejects the sample if a critical point is out of range.
pub mod Coverage
pub mod Sample
use nd45_dtsu666_converter.Base.Int.{pos}
use nd45_dtsu666_converter.Base.{
  poll_error, type_error, key_error, value_error, err, ok, ◌++◌, ◌∷◌, [], List, some, none, Option,
  ◌||◌, ◌&&◌, not, Bool, String, ◌-◌, ◌+◌, Result, map_ok, raise_if, ◌>>◌, ◌>>=◌, insert, values,
  mem, Dict, any, replicate, drop, take, length, Floats, of_nat, string_eq, nat_eq, if◌then◌else◌,
  leb, ltb, ℕ,
}
use nd45_dtsu666_converter.Codec.{registers_to_float, decode_point, compose, scale_raw}
use nd45_dtsu666_converter.Registers.{SourcePoint, SourceSide, or_empty}
use nd45_dtsu666_converter.Canonical.{Values, compute_derived}
use nd45_dtsu666_converter.Pollers.{
  Client, Groups, checked, Seen, seen_has, seen_add, seen_discard, LogLine, bad_channel,
  back_in_range,
}

-- `READ_GROUPS`
abbrev pub read_groups : List (ℕ × ℕ)
read_groups = (50, 96) ∷ (818, 2) ∷ (900, 96) ∷ []

abbrev pub optional_invalid_zero_points : List String
optional_invalid_zero_points = "pf_l1" ∷ "pf_l2" ∷ "pf_l3" ∷ "pf_total" ∷ []

-- `any(base <= addr < base + count - 1 for base, count in READ_GROUPS)`
abbrev pub readable : ℕ → List (ℕ × ℕ) → Bool
readable addr groups = any (λ g. leb g.0 addr && ltb addr (g.0 + g.1 - 1)) groups

-- `extract_registers(addr, groups)`, two registers
unfoldable pub extract_pair : ℕ → Groups → Result (List ℕ)
extract_pair addr [] = err key_error
extract_pair addr ((base, regs) ∷ groups) =
    if leb base addr && ltb addr (base + length regs - 1)
    then ok (take 2 (drop (addr - base) regs))
    else extract_pair addr groups

-- The first loop of `poll_once`: every block, in order.
unfoldable pub read_blocks : Client → ℕ → List (ℕ × ℕ) → Result Groups
read_blocks client slave [] = ok []
read_blocks client slave ((base, count) ∷ rest) = do
  regs ← checked (client (pos base) count slave) count
  groups ← read_blocks client slave rest
  ok ((base, regs) ∷ groups)

module _ {F : Type 0} where
  -- the addresses of one point: `compose` if it is not empty, else `addr`
  abbrev pub point_addresses : SourcePoint F → List ℕ
  point_addresses pt = elim (or_empty pt.compose) [
    | [] ↦ elim pt.addr [ none ↦ [] | some a ↦ a ∷ [] ]
    | a ∷ as_ ↦ a ∷ as_
  ]

  abbrev pub uncovered_in : List (SourcePoint F) → Bool
  uncovered_in pts = any (λ pt. any (λ a. not (readable a read_groups)) (point_addresses pt)) pts

  unfoldable pub validate_source_coverage : SourceSide F → Result (Unit {0})
  validate_source_coverage source = raise_if (uncovered_in (values source.points)) value_error

-- A decoded point: the value as the meter wrote it, and the SI value.
pub record Reading (F : Type 0) : Type 0 where
  pub raw : F
  pub si : F

-- What the loop over the points keeps.
pub record Decoding (F : Type 0) : Type 0 where
  pub values_ : Values F
  pub invalid_critical : List String
  pub seen : Seen
  pub lines : List LogLine

module _ {F : Type 0} ⦃fl : Floats F⦄ where
  -- `not math.isfinite(x) or abs(x) >= OVERRANGE`
  unfoldable pub out_of_range : F → Bool
  out_of_range x = not (fl.is_finite x) || fl.le fl.lit_1e20 (fl.abs x)

  abbrev pub invalid_parts : List F → List F
  invalid_parts [] = []
  invalid_parts (x ∷ xs) = let rest = invalid_parts xs in if out_of_range x then x ∷ rest else rest

  -- `pt.factors or [1.0] * len(parts)`
  abbrev pub factors_or_ones : Option (List F) → ℕ → List F
  factors_or_ones (some (f ∷ fs)) n = f ∷ fs
  factors_or_ones _ n = replicate n (of_nat 1)

  abbrev pub compose_reading : SourcePoint F → List F → Reading F
  compose_reading pt parts = elim (invalid_parts parts) [
    | x ∷ _ ↦ record { raw = x; si = x }
    | [] ↦
        let raw = compose parts (factors_or_ones pt.factors (length parts)) in
        record { raw = raw; si = scale_raw raw pt.scale pt.sign pt.offset }
  ]

  -- `raw` and `si` of one point
  unfoldable pub read_point : SourceSide F → Groups → SourcePoint F → Result (Reading F)
  read_point source groups pt = elim (or_empty pt.compose) [
    | a ∷ as_ ↦ do
      parts ←
          map_ok
            (λ addr. extract_pair addr groups >>= λ regs.
              registers_to_float regs source.word_order source.byte_order)
            (a ∷ as_)
      ok (compose_reading pt parts)
    | [] ↦ elim pt.addr [
      | none ↦ err type_error
      | some addr ↦ do
        regs ← extract_pair addr groups
        raw ← registers_to_float regs source.word_order source.byte_order
        si ← decode_point regs pt.scale pt.sign pt.offset source.word_order source.byte_order
        ok (record { raw = raw; si = si })
    ]
  ]

  abbrev pub is_invalid : Reading F → Bool
  is_invalid r = out_of_range r.si || out_of_range r.raw

  -- The round of one decoded point: memory and log, the zero of an optional point, the rejection of
  -- a critical one, and the value that is stored.
  unfoldable pub note_reading : String → Reading F → Decoding F → Decoding F
  note_reading key r d =
      if is_invalid r
      then (let optional = mem key optional_invalid_zero_points in
          record {
            values_ = insert key (if optional then of_nat 0 else r.si) d.values_;
            invalid_critical =
                if optional then d.invalid_critical else d.invalid_critical ++ key ∷ [];
            seen = seen_add d.seen key;
            lines = if seen_has d.seen key then d.lines else d.lines ++ bad_channel key ∷ [];
          })
      else record {
        values_ = insert key r.si d.values_;
        invalid_critical = d.invalid_critical;
        seen = seen_discard d.seen key;
        lines = if seen_has d.seen key then d.lines ++ back_in_range key ∷ [] else d.lines;
      }

  -- The loop over the points. A raise ends it; the memory and the log keep what was written.
  unfoldable pub decode_points :
      SourceSide F
      → Groups
      → Dict String (SourcePoint F)
      → Decoding F
      → Result (Unit {0}) × Decoding F
  decode_points source groups [] d = (ok tt, d)
  decode_points source groups ((key, pt) ∷ rest) d = elim (read_point source groups pt) [
    | err e ↦ (err e, d)
    | ok r ↦ decode_points source groups rest (note_reading key r d)
  ]

  -- after the loop: reject, or derive
  abbrev pub conclude : Result (Unit {0}) → Decoding F → Result (Values F)
  conclude (err e) d = err e
  conclude (ok _) d = elim d.invalid_critical [
    | _ ∷ _ ↦ err poll_error
    | [] ↦ ok (compute_derived d.values_)
  ]

  abbrev pub fresh_decoding : Seen → Decoding F
  fresh_decoding seen = record { values_ = []; invalid_critical = []; seen = seen; lines = [] }

  -- what follows the reads
  abbrev pub after_read :
      SourceSide F → Seen → Result Groups → Result (Values F) × Seen × List LogLine
  after_read source seen (err e) = (err e, seen, [])
  after_read source seen (ok groups) =
      let (r, d) = decode_points source groups source.points (fresh_decoding seen) in
      (conclude r d, d.seen, d.lines)

  -- `poll_once`: the sample or what is raised, the memory afterwards, and the log lines.
  unfoldable pub poll_once :
      Client → SourceSide F → ℕ → Seen → Result (Values F) × Seen × List LogLine
  poll_once client source slave seen = after_read source seen (read_blocks client slave read_groups)
