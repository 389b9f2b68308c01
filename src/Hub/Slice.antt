-- ===== src/Hub/Slice.antt =====
-- hub_client.py: the part of a block that answers a read.
use nd45_dtsu666_converter.Pollers.{registers}
use nd45_dtsu666_converter.Hub.{slice, offset_in, Request, add_count, BlockKey, covers}
use nd45_dtsu666_converter.Base.Int.{negsuc, pos, leb_ℤ, ℤ}
use nd45_dtsu666_converter.Base.{
  get_elem?-take, get_elem?-drop, ◌∙◌, length-take, drop, take, arith, List, some, none, Option,
  true, refl, ◌≡◌, ◌<◌, ◌≤◌, ◌+◌, ℕ, get_elem?, length, string_eq, nat_eq,
}

-- `regs` are the registers of the read within `block`, whose first one is at `base`: those from
-- `r.addr` on, as far as the block has them.
pub record IsPart (r : Request) (base : ℤ) (block regs : List ℕ) : Type 0 where
  pub offset : ℕ
  pub at_addr : add_count base offset ≡ r.addr
  pub same : (i : ℕ) → i < r.count → get_elem? regs i ≡ get_elem? block (offset + i)
  pub no_more : length regs ≤ r.count

-- The slice of a covering block is the part of it that is read.
pub slice-IsPart :
    (r : Request) (k : BlockKey) (block : List ℕ)
    → covers r k ≡ true
    → IsPart r k.base block (take r.count (drop (offset_in r.addr k.base) block))
slice-IsPart r k block h = record {
  offset = offset_in r.addr k.base;
  at_addr = add_count_offset r.addr k.base (ground arith);
  same = λ i l.
      get_elem?-take r.count i (drop (offset_in r.addr k.base) block) l
      ∙ get_elem?-drop (offset_in r.addr k.base) i block;
  no_more = omega (arith, length-take r.count (drop (offset_in r.addr k.base) block));
}
  where
    add_count_offset : (a b : ℤ) → leb_ℤ b a ≡ true → add_count b (offset_in a b) ≡ a
    add_count_offset (pos a) (pos b) l = ground arith
    add_count_offset (pos a) (negsuc b) l = ground arith
    add_count_offset (negsuc a) (pos b) l = ground arith
    add_count_offset (negsuc a) (negsuc b) l = ground arith

pub slice-registers :
    (rs : Option (List ℕ)) (offset count : ℕ) {regs : List ℕ}
    → slice rs offset count ≡ registers regs
    → (block : List ℕ) × (rs ≡ some block) × (take count (drop offset block) ≡ regs)
slice-registers none offset count h = absurd (cc)
slice-registers (some block) offset count h = (block, refl, cc)
