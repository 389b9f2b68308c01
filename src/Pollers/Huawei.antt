-- ===== src/Pollers/Huawei.antt =====
-- src/nd45_dtsu666/huawei_poller.py: the SmartLogger source. A poll reads the declared blocks,
-- decodes sized integers and floats, sets a channel that is not finite to zero, derives, and sets
-- to zero once more. The log lines of the last pass, which no memory mutes, are left out.
pub mod Sample
use nd45_dtsu666_converter.Registers.{or_empty, SourceSide, SourcePoint}
use nd45_dtsu666_converter.Pollers.{
  seen_discard, seen_add, LogLine, back_in_range, registers_of, bad_channel, Seen, read_declared,
  Groups, Client, require_groups, seen_has,
}
use nd45_dtsu666_converter.Canonical.{compute_derived, Values, apply_derive}
use nd45_dtsu666_converter.Base.{
  err, ok, ◌++◌, ◌∷◌, [], List, String, Result, insert, Dict, Floats, of_nat, ◌==◌, if◌then◌else◌,
  ℕ, string_eq, nat_eq, ◌>>=◌,
}
use nd45_dtsu666_converter.Codec.{decode_point, decode_int_point}

module _ {F : Type 0} ⦃fl : Floats F⦄ where
  -- `validate_source_coverage`
  unfoldable pub validate_source_coverage : SourceSide F → Result (Unit {0})
  validate_source_coverage source = require_groups source.read_groups

  unfoldable pub read_groups : Client → SourceSide F → ℕ → Result Groups
  read_groups client source slave =
      read_declared client source.address_offset slave (or_empty source.read_groups)

  -- the value of one point
  abbrev pub decode_value : SourceSide F → SourcePoint F → List ℕ → Result F
  decode_value source pt regs =
      if pt.dtype == "float32"
      then decode_point regs pt.scale pt.sign pt.offset source.word_order source.byte_order
      else decode_int_point regs pt.dtype pt.scale pt.sign pt.offset source.word_order
          source.byte_order

  -- the loop of `decode_source`
  unfoldable pub decode_from :
      SourceSide F → Groups → Dict String (SourcePoint F) → Values F → Result (Values F)
  decode_from source groups [] vs = ok vs
  decode_from source groups ((key, pt) ∷ rest) vs =
      (registers_of pt groups >>= decode_value source pt) >>= λ v.
      decode_from source groups rest (insert key v vs)

  unfoldable pub decode_source : SourceSide F → Groups → Result (Values F)
  decode_source source groups = decode_from source groups source.points []

-- What the first loop of `poll_once` keeps.
pub record Noted (F : Type 0) : Type 0 where
  pub values_ : Values F
  pub seen : Seen
  pub lines : List LogLine

module _ {F : Type 0} ⦃fl : Floats F⦄ where
  -- one round of that loop
  abbrev pub note_item : String → F → Noted F → Noted F
  note_item key value n =
      if fl.is_finite value
      then record n {
        seen = if seen_has n.seen key then seen_discard n.seen key else n.seen;
        lines = if seen_has n.seen key then n.lines ++ back_in_range key ∷ [] else n.lines;
      }
      else record {
        values_ = insert key (of_nat 0) n.values_;
        seen = if seen_has n.seen key then n.seen else seen_add n.seen key;
        lines = if seen_has n.seen key then n.lines else n.lines ++ bad_channel key ∷ [];
      }

  -- `for key, value in list(values.items())`
  unfoldable pub note_items : List (String × F) → Noted F → Noted F
  note_items [] n = n
  note_items ((key, value) ∷ items) n = note_items items (note_item key value n)

  -- the same loop after the derive steps
  unfoldable pub scrub : List (String × F) → Values F → Values F
  scrub [] vs = vs
  scrub ((key, value) ∷ items) vs =
      scrub items (if fl.is_finite value then vs else insert key (of_nat 0) vs)

  -- what follows the first loop
  abbrev pub derive_sample : SourceSide F → Values F → Result (Values F)
  derive_sample source vs = apply_derive vs source.derive >>= λ d. ok (compute_derived (scrub d d))

  -- what follows the decoding
  abbrev pub after_decode :
      SourceSide F → Seen → Result (Values F) → Result (Values F) × Seen × List LogLine
  after_decode source seen (err e) = (err e, seen, [])
  after_decode source seen (ok vs) =
      let n = note_items vs (record { values_ = vs; seen = seen; lines = [] }) in
      (derive_sample source n.values_, n.seen, n.lines)

  -- `poll_once`: the sample or what is raised, the memory afterwards, and the log lines.
  unfoldable pub poll_once :
      Client → SourceSide F → ℕ → Seen → Result (Values F) × Seen × List LogLine
  poll_once client source slave seen =
      after_decode source seen (read_groups client source slave >>= decode_source source)
