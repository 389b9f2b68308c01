-- ===== src/Server/Identity.antt =====
-- dtsu_server.py: the identity and configuration registers that are written once, and the settings
-- of config.py that they hold.
pub mod Image
pub mod Documented
use nd45_dtsu666_converter.Registers.Map.{
  number, text, StaticType, register_count, StaticIdentityPoint, uint32, ascii, StaticValue,
}
use nd45_dtsu666_converter.Server.Encode.{Write, write_all}
use nd45_dtsu666_converter.Registers.{fc3}
use nd45_dtsu666_converter.Pollers.{registers}
use nd45_dtsu666_converter.Datastore.{Datastore}
use nd45_dtsu666_converter.Base.Int.{negsuc, pos, ℤ}
use nd45_dtsu666_converter.Base.{
  type_error, other_error, index_error, value_error, err, ok, ◌++◌, ◌∷◌, [], List, some, none,
  Option, not, String, ◌%◌, ◌/◌, ◌*◌, ◌-◌, ◌+◌, Result, raise_if, ◌>>◌, lookup, Dict, all,
  replicate, length, if◌then◌else◌, ltb, ℕ, string_eq, nat_eq, ◌>>=◌, ◌==◌,
}

-- The transport of an output, with the settings that `write_static_registers` reads of it: the
-- baudrate, if `rtu` is given.
pub data Transport : Type 0 where
  rtu tcp : Transport

pub record DtsuIdentityConf : Type 0 where
  pub rev : ℕ
  pub ucode : ℕ
  pub clr_e : ℕ
  pub net : ℕ
  pub ir_at : ℕ
  pub ur_at : ℕ
  pub disp : ℕ
  pub b_lcd : ℕ
  pub endian : ℕ
  pub protocol : ℕ
  pub handshake_magic : ℕ

pub record DtsuConf : Type 0 where
  pub transport : Transport
  pub identity : DtsuIdentityConf
  pub rtu_baudrate : Option ℕ

-- One register: `setValues(_HOLDING_FC, addr, [value])`
abbrev pub holding : ℕ → ℕ → Write
holding a value = record { function_code = fc3; address = a; registers = value ∷ [] }

-- the loop over `_IDENTITY_REGISTER_ADDRS`
abbrev pub identity_writes : DtsuIdentityConf → List Write
identity_writes i =
    holding 0x0000 i.rev
    ∷ holding 0x0001 i.ucode
    ∷ holding 0x0002 i.clr_e
    ∷ holding 0x0003 i.net
    ∷ holding 0x0006 i.ir_at
    ∷ holding 0x0007 i.ur_at
    ∷ holding 0x000A i.disp
    ∷ holding 0x000B i.b_lcd
    ∷ holding 0x000C i.endian
    ∷ holding 0x002C i.protocol
    ∷ []

-- `_BAUD_CODES`
abbrev pub baud_codes : Dict ℕ ℕ
baud_codes = (1200, 0) ∷ (2400, 1) ∷ (4800, 2) ∷ (9600, 3) ∷ []

-- the code of a baudrate, or that of 9600
abbrev pub baud_code : ℕ → ℕ
baud_code baudrate = elim (lookup baudrate baud_codes) [ none ↦ 3 | some code ↦ code ]

-- `dtsu_cfg.rtu.baudrate if dtsu_cfg.transport == "rtu" else 9600`
abbrev pub baudrate_of : Transport → Option ℕ → Result ℕ
baudrate_of tcp baudrate = ok 9600
baudrate_of rtu (some baudrate) = ok baudrate
baudrate_of rtu none = err other_error

-- the writes after the loop
abbrev pub fixed_writes : ℕ → ℕ → List Write
fixed_writes code slave_id =
    holding 0x002D code
    ∷ holding 0x002E slave_id
    ∷ holding 0x0046 0
    ∷ holding 0x0004 1
    ∷ holding 0x0008 4
    ∷ []

-- Two registers of an integer: `[(value >> 16) & 0xFFFF, value & 0xFFFF]`, at a value of zero or
-- more.
abbrev pub words_of : ℕ → List ℕ
words_of value = (value / 65536 % 65536) ∷ (value % 65536) ∷ []

-- `raw.ljust(n, b"\0")`
abbrev pub ljust : List ℕ → ℕ → List ℕ
ljust raw n = raw ++ replicate (n - length raw) 0

-- The bytes of a padded text in pairs; the last byte of an odd number has no partner.
unfoldable pub pair_bytes : List ℕ → Result (List ℕ)
pair_bytes [] = ok []
pair_bytes (a ∷ []) = err index_error
pair_bytes (a ∷ b ∷ rest) = pair_bytes rest >>= λ words. ok ((a * 256 + b) ∷ words)

module _ {S : Type 0} ⦃ds : Datastore S⦄ where
  abbrev pub after_identity : S → ℕ → Result ℕ → Result (Unit {0}) × S
  after_identity s slave_id (err e) = (err e, s)
  after_identity s slave_id (ok baudrate) =
      (ok tt, write_all s (fixed_writes (baud_code baudrate) slave_id))

  unfoldable pub write_static_registers : S → ℕ → DtsuConf → Result (Unit {0}) × S
  write_static_registers s slave_id cfg =
      after_identity (write_all s (identity_writes cfg.identity)) slave_id
        (baudrate_of cfg.transport cfg.rtu_baudrate)

-- an integer modulo 2 ^ 32, which is all that its two registers keep
abbrev pub own_number : StaticValue → Result ℕ
own_number (text _) = err type_error
own_number (number (pos n)) = ok n
own_number (number (negsuc n)) = ok (4294967295 - n % 4294967296)

-- the value of a number point: `handshake_magic` comes from the bridge's settings, if given
abbrev pub number_value : String → StaticValue → Option DtsuConf → Result ℕ
number_value name v none = own_number v
number_value name v (some cfg) =
    if name == "handshake_magic" then ok cfg.identity.handshake_magic else own_number v

-- The registers of one point. A text whose codes are not ascii raises a `ValueError`, a number has
-- no `encode`.
abbrev pub static_words : String → StaticType → StaticValue → ℕ → Option DtsuConf → Result (List ℕ)
static_words name ascii (text cs) count cfg =
    raise_if (not (all (λ c. ltb c 128) cs)) value_error >> pair_bytes (ljust cs (count * 2))
static_words name ascii (number _) count cfg = err other_error
static_words name uint32 v count cfg = number_value name v cfg >>= λ n. ok (words_of n)

module _ {S : Type 0} ⦃ds : Datastore S⦄ where
  -- `write_sigen_identity`: point by point; a raise leaves what was written.
  unfoldable pub write_sigen_identity :
      S → Dict String StaticIdentityPoint → Option DtsuConf → Result (Unit {0}) × S
  write_sigen_identity s [] cfg = (ok tt, s)
  write_sigen_identity s ((name, p) ∷ rest) cfg =
      elim (static_words name p.type p.static_value (register_count p) cfg) [
        | err e ↦ (err e, s)
        | ok words ↦ write_sigen_identity (ds.set_values s fc3 p.addr words) rest cfg
      ]
