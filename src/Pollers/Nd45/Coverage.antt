-- ===== src/Pollers/Nd45/Coverage.antt =====
-- nd45_poller.py: `validate_source_coverage`, and what a poll may raise.
use nd45_dtsu666_converter.Registers.{SourceSide, SourcePoint, check_shape}
use nd45_dtsu666_converter.Codec.{registers_to_float, word_bytes, scale_raw, decode_point}
use nd45_dtsu666_converter.Base.Int.{pos}
use nd45_dtsu666_converter.Base.{
  poll_error, ◌⊎◌, String, Exc, values, Dict, All, ◌++◌, string_eq, nat_eq, ◌==◌, if◌then◌else◌,
  some, none, Option, not, false, map_ok, any, Floats, err, ok, arith, ◌∷◌, [], List, ◌&&◌, true,
  inr, inl, refl, ◌≡◌, ◌<◌, ◌≤◌, ◌-◌, ◌+◌, suc, zero, Result, ◌>>=◌, drop, take, length, Bool-cases,
  leb, ltb, ℕ,
}
use nd45_dtsu666_converter.Pollers.{Seen, Client, Groups, Response, checked}
use nd45_dtsu666_converter.Pollers.Nd45.{
  after_read, fresh_decoding, uncovered_in, conclude, Decoding, validate_source_coverage, poll_once,
  decode_points, note_reading, point_addresses, Reading, compose_reading, read_point, read_groups,
  readable, extract_pair, read_blocks,
}

-- The blocks that were read, beside the blocks that were asked for.
abbrev pub BlocksOf : List (ℕ × ℕ) → Groups → Type 0
BlocksOf [] [] = Unit
BlocksOf ((base, count) ∷ asked) ((b, regs) ∷ groups) =
    (b ≡ base) × (count ≤ length regs) × BlocksOf asked groups
BlocksOf _ _ = ⊥

abbrev BlocksRead : List (ℕ × ℕ) → Result Groups → Type 0
BlocksRead asked (ok groups) = BlocksOf asked groups
BlocksRead asked (err _) = Unit

abbrev LongEnough : ℕ → Result (List ℕ) → Type 0
LongEnough count (ok regs) = count ≤ length regs
LongEnough count (err _) = Unit

checked-LongEnough : (r : Response) (count : ℕ) → LongEnough count (checked r count)
checked-LongEnough Response.error_response count = tt
checked-LongEnough (Response.registers regs) count = elim (Bool-cases (ltb (length regs) count)) [
  | inl short ↦ rw (short, LongEnough) tt
  | inr enough ↦ rw (enough, LongEnough) (ground arith)
]
checked-LongEnough (Response.raised e) count = tt

BlocksRead-cons :
    (base count : ℕ) (asked : List (ℕ × ℕ)) (regs : List ℕ) (r : Result Groups)
    → count ≤ length regs
    → BlocksRead asked r
    → BlocksRead ((base, count) ∷ asked) (r >>= λ groups. ok ((base, regs) ∷ groups))
BlocksRead-cons base count asked regs (ok groups) l h = (refl, l, h)
BlocksRead-cons base count asked regs (err x) l h = tt

-- Every block that a poll goes on with has arrived whole.
pub read_blocks-BlocksRead :
    (client : Client) (slave : ℕ) (asked : List (ℕ × ℕ))
    → BlocksRead asked (read_blocks client slave asked)
unfolding read_blocks
read_blocks-BlocksRead client slave [] = tt
read_blocks-BlocksRead client slave ((base, count) ∷ asked) =
    step (checked (client (pos base) count slave) count)
      (checked-LongEnough (client (pos base) count slave) count)
      (read_blocks-BlocksRead client slave asked)
  where
    step :
        (m : Result (List ℕ))
        → LongEnough count m
        → BlocksRead asked (read_blocks client slave asked)
        → BlocksRead
            ((base, count) ∷ asked)
            (m >>= λ regs. read_blocks client slave asked >>= λ groups. ok ((base, regs) ∷ groups))
    step (ok regs) l h = BlocksRead-cons base count asked regs (read_blocks client slave asked) l h
    step (err e) l h = tt

-- Two registers are there for an address that the blocks cover.
pub extract_pair_found :
    (addr : ℕ) (asked : List (ℕ × ℕ)) (groups : Groups)
    → BlocksOf asked groups
    → readable addr asked ≡ true
    → (a b : ℕ) × (extract_pair addr groups ≡ ok (a ∷ b ∷ []))
unfolding extract_pair
extract_pair_found addr [] [] h r = cc
extract_pair_found addr [] (_ ∷ _) h r = absurd h
extract_pair_found addr (_ ∷ _) [] h r = absurd h
extract_pair_found addr ((base, count) ∷ asked) ((b, regs) ∷ groups) h r =
    elim (Bool-cases (leb b addr && ltb addr (b + length regs - 1))) [
      | inl here ↦ let (x, y, e) = two_at (addr - b) regs (ground arith) in (x, y, rw (here, e))
      | inr there ↦
          let (x, y, e) = extract_pair_found addr asked groups h.2 (ground arith) in
          (x, y, rw there e)
    ]
  where
    two_at :
        (i : ℕ) (xs : List ℕ) → i + 1 < length xs → (a b : ℕ) × (take 2 (drop i xs) ≡ a ∷ b ∷ [])
    two_at i [] l = absurd (omega arith)
    two_at zero (x ∷ []) l = absurd (omega arith)
    two_at zero (x ∷ y ∷ xs) l = (x, y, refl)
    two_at (suc i) (x ∷ xs) l = two_at i xs (omega arith)

module _ {F : Type 0} ⦃fl : Floats F⦄ (source : SourceSide F) (groups : Groups)
    (whole : BlocksOf read_groups groups) where
  abbrev part_at : ℕ → Result F
  part_at addr = extract_pair addr groups >>= λ regs.
      registers_to_float regs source.word_order source.byte_order

  abbrev raw_pair : ℕ → ℕ → F
  raw_pair x y =
      let wo = source.word_order in
      let bo = source.byte_order in
      fl.unpack (
        if wo == "big"
        then word_bytes x bo ++ word_bytes y bo
        else word_bytes y bo ++ word_bytes x bo)

  part_total : (addr : ℕ) → readable addr read_groups ≡ true → (x : F) × (part_at addr ≡ ok x)
  unfolding registers_to_float
  part_total addr r =
      let (a, b, e) = extract_pair_found addr read_groups groups whole r in (raw_pair a b, rw e)

  parts_total :
      (addrs : List ℕ)
      → any (λ a. not (readable a read_groups)) addrs ≡ false
      → (parts : List F) × (map_ok part_at addrs ≡ ok parts)
  parts_total [] h = ([], refl)
  parts_total (a ∷ as_) h =
      let (x, e) = part_total a (ground arith) in
      let (xs, es) = parts_total as_ (ground arith) in (x ∷ xs, rw (e, es))

  -- Every accepted point is decoded.
  read_point_total :
      (pt : SourcePoint F)
      → check_shape pt ≡ ok tt
      → any (λ a. not (readable a read_groups)) (point_addresses pt) ≡ false
      → (r : Reading F) × (read_point source groups pt ≡ ok r)
  unfolding read_point check_shape decode_point registers_to_float
  read_point_total pt shape h = go pt.compose refl pt.addr refl
    where
      go :
          (c : Option (List ℕ))
          → pt.compose ≡ c
          → (m : Option ℕ) → pt.addr ≡ m
          → (r : Reading F) × (read_point source groups pt ≡ ok r)
      go none ec none em = absurd (ground arith)
      go none ec (some a) em =
          let (x, y, e) = extract_pair_found a read_groups groups whole (ground arith) in
          let raw = raw_pair x y in
          (record { raw = raw; si = scale_raw raw pt.scale pt.sign pt.offset }, rw (ec, em, e))
      go (some []) ec m em = absurd (ground arith)
      go (some (a ∷ as_)) ec m em =
          let (parts, e) = parts_total (a ∷ as_) (ground arith) in
          (compose_reading pt parts, rw (ec, e))

  decode_points_total :
      (pts : Dict String (SourcePoint F)) (d : Decoding F)
      → All (λ pt. check_shape pt ≡ ok tt) (values pts)
      → uncovered_in (values pts) ≡ false
      → (decode_points source groups pts d).0 ≡ ok tt
  unfolding decode_points
  decode_points_total [] d shapes covered = refl
  decode_points_total ((key, pt) ∷ rest) d shapes covered =
      let (r, e) = read_point_total pt shapes.0 (ground arith) in
      rw (e, decode_points)
        (decode_points_total rest (note_reading key r d) shapes.1 (ground arith))

module _ {F : Type 0} ⦃fl : Floats F⦄ (client : Client) (source : SourceSide F) (slave : ℕ)
    (seen : Seen) where
  conclude_raises :
      (r : Result (Unit {0})) (d : Decoding F) {x : Exc}
      → r ≡ ok tt
      → conclude r d ≡ err x
      → x ≡ poll_error
  conclude_raises r d e h = ground arith

  after_read_raises :
      (r : Result Groups) {x : Exc}
      → All (λ pt. check_shape pt ≡ ok tt) (values source.points)
      → uncovered_in (values source.points) ≡ false
      → BlocksRead read_groups r
      → (after_read source seen r).0 ≡ err x
      → (x ≡ poll_error) ⊎ (r ≡ err x)
  after_read_raises (err y) shapes covered whole h = inr (cc)
  after_read_raises (ok groups) shapes covered whole h = inl (
      conclude_raises _ (decode_points source groups source.points (fresh_decoding seen)).1
        (decode_points_total source groups whole source.points (fresh_decoding seen) shapes covered)
        h)

  -- With a source whose points are well-formed and covered by the read blocks, a poll fails only by
  -- `PollError` or by what the transport itself raised while the blocks were read: no point is ever
  -- looked up outside the blocks.
  pub poll_once_raises :
      {x : Exc}
      → All (λ pt. check_shape pt ≡ ok tt) (values source.points)
      → validate_source_coverage source ≡ ok tt
      → (poll_once client source slave seen).0 ≡ err x
      → (x ≡ poll_error) ⊎ (read_blocks client slave read_groups ≡ err x)
  unfolding poll_once validate_source_coverage
  poll_once_raises shapes covered h =
      after_read_raises (read_blocks client slave read_groups) shapes (ground arith)
        (read_blocks-BlocksRead client slave read_groups) h
