-- ===== src/Datastore.antt =====
-- The register image that pymodbus serves: `ModbusSlaveContext`, a third-party class. The code uses
-- `setValues(fc, address, values)` and reads with `getValues(fc, address, count)`; both are
-- arguments of the model, and `DatastoreLaws` states the documented behaviour that theorems use, of
-- blocks that reach every register in use: those of the points do, by their size in Server.Context.
-- For the identity registers, which `build_context` sizes no block for, Server.Identity.Documented
-- states the laws within a block.
use nd45_dtsu666_converter.Base.{List, ◌⊎◌, ◌≢◌, ◌≡◌, ◌≤◌, ◌+◌, length, ℕ}
use nd45_dtsu666_converter.Registers.{FunctionCode}

pub record Datastore (S : Type 0) : Type 0 where
  pub set_values : S → FunctionCode → ℕ → List ℕ → S
  pub get_values : S → FunctionCode → ℕ → ℕ → List ℕ

-- Two spans of registers share no register.
abbrev pub Apart : FunctionCode → ℕ → ℕ → FunctionCode → ℕ → ℕ → Type 0
Apart fc a n fc' b m = (fc ≢ fc') ⊎ ((a + n ≤ b) ⊎ (b + m ≤ a))

pub record DatastoreLaws {S : Type 0} (ds : Datastore S) : Type 0 where
  pub get-set :
      (s : S) (fc : FunctionCode) (a : ℕ) (vs : List ℕ)
      → ds.get_values (ds.set_values s fc a vs) fc a (length vs) ≡ vs
  pub get-set_apart :
      (s : S) (fc fc' : FunctionCode) (a b n : ℕ) (vs : List ℕ)
      → Apart fc a (length vs) fc' b n
      → ds.get_values (ds.set_values s fc a vs) fc' b n ≡ ds.get_values s fc' b n
