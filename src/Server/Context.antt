-- ===== src/Server/Context.antt =====
-- dtsu_server.py: how large the register blocks are that `build_context` makes. The blocks start at
-- address 0, and hold one register more than the highest address of the maps.
use nd45_dtsu666_converter.Server.Identity.{write_sigen_identity, DtsuConf, write_static_registers}
use nd45_dtsu666_converter.Datastore.{Datastore}
use nd45_dtsu666_converter.Registers.Map.{register_count, StaticIdentityPoint}
use nd45_dtsu666_converter.Registers.{FunctionCode, fc4, TargetSide, fc3, TargetPoint}
use nd45_dtsu666_converter.Base.{
  err, ok, some, none, Option, Result, arith, ◌∷◌, [], List, false, true, Bool, inr, inl, refl, ◌≡◌,
  String, ◌≤◌, ◌-◌, ◌+◌, values, Dict, All-imp, All, Bool-cases, if◌then◌else◌, leb, ℕ, string_eq,
  nat_eq,
}

abbrev pub max_ℕ : ℕ → ℕ → ℕ
max_ℕ a b = if leb a b then b else a

-- `max(xs, default=0)`
abbrev pub max_of : List ℕ → ℕ
max_of [] = 0
max_of (x ∷ xs) = max_ℕ x (max_of xs)

abbrev pub same_code : FunctionCode → FunctionCode → Bool
same_code fc3 fc3 = true
same_code fc4 fc4 = true
same_code _ _ = false

-- `point.addr + point.register_count - 1` of every static point
abbrev pub static_ends : List StaticIdentityPoint → List ℕ
static_ends [] = []
static_ends (p ∷ ps) = (p.addr + register_count p - 1) ∷ static_ends ps

-- the part of the static points in the highest address of a function code
abbrev pub static_max : FunctionCode → List StaticIdentityPoint → ℕ
static_max fc3 ps = max_of (static_ends ps)
static_max fc4 ps = 0

module _ {F : Type 0} where
  -- `point.addr + 1` of every point
  abbrev pub point_ends : List (TargetPoint F) → List ℕ
  point_ends [] = []
  point_ends (p ∷ ps) = (p.addr + 1) ∷ point_ends ps

  -- `max_addresses[fc]` after the loop over the sides, from a value before it
  unfoldable pub max_address : FunctionCode → ℕ → List (TargetSide F) → ℕ
  max_address fc acc [] = acc
  max_address fc acc (side ∷ sides) =
      max_address fc
        (if same_code fc side.function_code
          then max_ℕ acc (max_of (point_ends (values side.points)))
          else acc)
        sides

  -- how many registers the block of a function code has
  unfoldable pub block_size :
      FunctionCode → List (TargetSide F) → Dict String StaticIdentityPoint → ℕ
  block_size fc sides identity =
      max_ℕ (max_address fc 0 sides) (static_max fc (values identity)) + 1

  max_address_above :
      (fc : FunctionCode) (acc : ℕ) (sides : List (TargetSide F)) → acc ≤ max_address fc acc sides
  unfolding max_address
  max_address_above fc acc [] = omega arith
  max_address_above fc acc (side ∷ sides) =
      let m = max_of (point_ends (values side.points)) in
      elim (Bool-cases (same_code fc side.function_code)) [
        | inl same ↦ rw same (ground (arith, max_address_above fc (max_ℕ acc m) sides))
        | inr other ↦ rw other (max_address_above fc acc sides)
      ]

  -- Both registers of every point of a list end below a bound.
  abbrev Below : ℕ → List (TargetPoint F) → Type 0
  Below bound ps = All (λ p. p.addr + 2 ≤ bound + 1) ps

  ends-Below :
      (bound : ℕ) (ps : List (TargetPoint F)) → max_of (point_ends ps) ≤ bound → Below bound ps
  ends-Below bound [] h = tt
  ends-Below bound (p ∷ ps) h = (ground arith, ends-Below bound ps (ground arith))

same_code_self : (fc : FunctionCode) → same_code fc fc ≡ true
same_code_self fc3 = refl
same_code_self fc4 = refl

module _ {F : Type 0} where
  -- The registers of a side lie in its block.
  abbrev pub Fits : List (TargetSide F) → Dict String StaticIdentityPoint → TargetSide F → Type 0
  Fits sides identity side =
      All (λ p. p.addr + 2 ≤ block_size side.function_code sides identity) (values side.points)

  side-Below :
      (side : TargetSide F) (acc : ℕ) (sides : List (TargetSide F))
      → Below (max_address side.function_code acc (side ∷ sides)) (values side.points)
  unfolding max_address
  side-Below side acc sides =
      let m = max_of (point_ends (values side.points)) in
      rw (same_code_self side.function_code) (
        ends-Below (max_address side.function_code (max_ℕ acc m) sides) (values side.points)
          (ground (arith, max_address_above side.function_code (max_ℕ acc m) sides)))

  max_address_mono :
      (fc : FunctionCode) (a b : ℕ) (sides : List (TargetSide F))
      → a ≤ b
      → max_address fc a sides ≤ max_address fc b sides
  unfolding max_address
  max_address_mono fc a b [] h = h
  max_address_mono fc a b (side ∷ sides) h =
      let m = max_of (point_ends (values side.points)) in
      elim (Bool-cases (same_code fc side.function_code)) [
        | inl same ↦ rw same (max_address_mono fc (max_ℕ a m) (max_ℕ b m) sides (ground arith))
        | inr other ↦ rw other (max_address_mono fc a b sides h)
      ]

  -- A further side only raises the highest address.
  max_address_cons :
      (fc : FunctionCode) (acc : ℕ) (side : TargetSide F) (sides : List (TargetSide F))
      → max_address fc acc sides ≤ max_address fc acc (side ∷ sides)
  unfolding max_address
  max_address_cons fc acc side sides =
      let m = max_of (point_ends (values side.points)) in
      elim (Bool-cases (same_code fc side.function_code)) [
        | inl same ↦ rw same (max_address_mono fc acc (max_ℕ acc m) sides (ground arith))
        | inr other ↦ rw other (omega arith)
      ]

  -- The points of every side, from some value on.
  sides-Below :
      (acc : ℕ) (sides : List (TargetSide F))
      → All (λ side. Below (max_address side.function_code acc sides) (values side.points)) sides
  sides-Below acc [] = tt
  sides-Below acc (side ∷ sides) = (
    side-Below side acc sides,
    All-imp (λ t. Below (max_address t.function_code acc sides) (values t.points))
        (λ t. Below (max_address t.function_code acc (side ∷ sides)) (values t.points)) sides
        (λ t h.
          All-imp _ _ (values t.points)
            (λ p l. omega (arith, l, max_address_cons t.function_code acc side sides)) h)
        (sides-Below acc sides),
  )

  -- Both registers of every point of every side lie in the block of the side's function code.
  pub sides-Fits :
      (sides : List (TargetSide F)) (identity : Dict String StaticIdentityPoint)
      → All (Fits sides identity) sides
  unfolding block_size
  sides-Fits sides identity =
      All-imp (λ t. Below (max_address t.function_code 0 sides) (values t.points))
        (Fits sides identity) sides (λ t h. All-imp _ _ (values t.points) (λ p l. ground arith) h)
        (sides-Below 0 sides)

static-Below :
    (bound : ℕ) (ps : List StaticIdentityPoint)
    → max_of (static_ends ps) ≤ bound
    → All (λ p. p.addr + register_count p ≤ bound + 1) ps
static-Below bound [] h = tt
static-Below bound (p ∷ ps) h = (ground arith, static-Below bound ps (ground arith))

module _ {F : Type 0} where
  -- The blocks that the context is made with hold both registers of every point of every map, and
  -- every register of every static value.
  pub block_size_enough :
      (sides : List (TargetSide F)) (identity : Dict String StaticIdentityPoint)
      → All (Fits sides identity) sides
        × All (λ p. p.addr + register_count p ≤ block_size fc3 sides identity) (values identity)
  unfolding block_size
  block_size_enough sides identity = (
    sides-Fits sides identity,
    static-Below (max_ℕ (max_address fc3 0 sides) (max_of (static_ends (values identity))))
        (values identity) (ground arith),
  )

-- What `write_static_registers` did decides whether the static values are written.
abbrev pub then_identity :
    {S : Type 0} ⦃ds : Datastore S⦄
    → Result (Unit {0}) × S
    → Dict String StaticIdentityPoint
    → Option DtsuConf
    → Result (Unit {0}) × S
then_identity (err e, s) identity cfg = (err e, s)
then_identity (ok _, s) identity cfg = write_sigen_identity s identity cfg

abbrev pub static_if_given :
    {S : Type 0} ⦃ds : Datastore S⦄ → S → ℕ → Option DtsuConf → Result (Unit {0}) × S
static_if_given s slave_id none = (ok tt, s)
static_if_given s slave_id (some cfg) = write_static_registers s slave_id cfg

-- `build_context`: `make` stands for the construction of a zeroed datastore from the sizes of its
-- holding and its input registers. Without static values their dict is empty.
unfoldable pub build_context :
    {F S : Type 0} ⦃ds : Datastore S⦄
    → (ℕ → ℕ → S)
    → List (TargetSide F)
    → ℕ
    → Option DtsuConf
    → Dict String StaticIdentityPoint
    → Result (Unit {0}) × S
build_context make sides slave_id cfg identity =
    then_identity
      (static_if_given (make (block_size fc3 sides identity) (block_size fc4 sides identity))
        slave_id cfg)
      identity cfg
