-- ===== src/Bridges.antt =====
-- src/nd45_dtsu666/config.py: the checks of `AppConfig` between the bridges of a configuration. A
-- bridge is what these checks read of a `BridgeConf`, and a list of bridges is `bridge_specs`.
pub mod Outputs
use nd45_dtsu666_converter.Base.{
  value_error, err, ok, arith, ◌∷◌, [], List, some, none, Option, ◌||◌, ◌&&◌, false, true, Bool,
  ◌↔◌, ◌≡◌, String, ◌*◌, Result, raise_if, ◌>>◌, insert, contains, mem, Dict, any, if◌then◌else◌,
  eqb, ltb, ℕ, string_eq, nat_eq, ◌>>=◌, ◌==◌, Eq,
}
use nd45_dtsu666_converter.Server.Identity.{Transport, rtu, tcp}

pub record BridgeSpec : Type 0 where
  pub name : String
  pub transport : Transport
  -- `dtsu.rtu.port`; host and port of `dtsu.tcp`
  pub serial_port : Option String
  pub tcp_bind : Option (String × ℕ)
  pub metrics_port : Option ℕ
  pub poll_interval : ℕ
  pub max_data_age : ℕ

pub record PrometheusConf : Type 0 where
  pub enabled : Bool
  pub host : String
  pub port : ℕ

-- A key of `serial_ports` or of `tcp_binds`. The two dicts of the check are one here, its keys
-- tagged by the dict that they stand in.
pub data Output : Type 0 where
  serial : String → Output
  listening : String → ℕ → Output

abbrev pub output_beq : Output → Output → Bool
output_beq (serial p) (serial q) = p == q
output_beq (listening h p) (listening i q) = h == i && eqb p q
output_beq _ _ = false

pub output_beq_iff : (a b : Output) → (output_beq a b ≡ true) ↔ (a ≡ b)
output_beq_iff (serial p) (serial q) =
    (λ h. ground (arith, string_eq.beq_iff p q), λ h. ground (arith, string_eq.beq_iff p q))
output_beq_iff (listening h p) (listening i q) =
    (λ e. ground (arith, string_eq.beq_iff h i), λ e. ground (arith, string_eq.beq_iff h i))
output_beq_iff (serial p) (listening i q) = (λ e. absurd (cc), λ e. absurd (cc))
output_beq_iff (listening h p) (serial q) = (λ e. absurd (cc), λ e. absurd (cc))

instance abbrev pub output_eq : Eq Output
output_eq = record { beq = output_beq; beq_iff = output_beq_iff }

-- the key of a bridge, if its transport has settings
abbrev pub output_for : Transport → Option String → Option (String × ℕ) → Option Output
output_for rtu (some port) bind = some (serial port)
output_for rtu none bind = none
output_for tcp port (some (host, number)) = some (listening host number)
output_for tcp port none = none

abbrev pub output_of : BridgeSpec → Option Output
output_of b = output_for b.transport b.serial_port b.tcp_bind

-- the owner of a key, or the new owner
abbrev pub take_key : {K : Type 0} ⦃e : Eq K⦄ → K → String → Dict K String → Result (Dict K String)
take_key key name owners =
    if contains key owners then err value_error else ok (insert key name owners)

abbrev pub take_output : Option Output → String → Dict Output String → Result (Dict Output String)
take_output none name owners = ok owners
take_output (some o) name owners = take_key o name owners

unfoldable pub check_outputs_from : Dict Output String → List BridgeSpec → Result (Unit {0})
check_outputs_from owners [] = ok tt
check_outputs_from owners (b ∷ bs) =
    take_output (output_of b) b.name owners >>= λ next. check_outputs_from next bs

-- `_check_output_transports_do_not_collide`
unfoldable pub check_output_transports : List BridgeSpec → Result (Unit {0})
check_output_transports specs = check_outputs_from [] specs

-- `dtsu.tcp`, at a bridge that serves TCP
abbrev pub listening_at : Transport → Option (String × ℕ) → Option (String × ℕ)
listening_at rtu bind = none
listening_at tcp bind = bind

abbrev pub wildcards : List String
wildcards = "0.0.0.0" ∷ "::" ∷ []

-- `overlap` of the two metrics checks
abbrev pub hosts_overlap : String → String → Bool
hosts_overlap a b = a == b || (mem a wildcards || mem b wildcards)

abbrev pub metrics_collides : PrometheusConf → Option (String × ℕ) → Bool
metrics_collides p none = false
metrics_collides p (some (host, port)) = eqb p.port port && hosts_overlap p.host host

-- `_check_metrics_port_free`
unfoldable pub check_metrics_port_free : PrometheusConf → List BridgeSpec → Result (Unit {0})
check_metrics_port_free p specs =
    raise_if
      (p.enabled && any (λ b. metrics_collides p (listening_at b.transport b.tcp_bind)) specs)
      value_error

-- the first loop of `_check_per_bridge_metrics_ports`
abbrev pub take_port : Option ℕ → String → Dict ℕ String → Result (Dict ℕ String)
take_port none name seen = ok seen
take_port (some port) name seen = take_key port name seen

abbrev pub take_ports : Dict ℕ String → List BridgeSpec → Result (Dict ℕ String)
take_ports seen [] = ok seen
take_ports seen (b ∷ bs) = take_port b.metrics_port b.name seen >>= λ next. take_ports next bs

-- the second loop
abbrev pub port_taken : PrometheusConf → Dict ℕ String → Option (String × ℕ) → Bool
port_taken p seen none = false
port_taken p seen (some (host, port)) = contains port seen && hosts_overlap p.host host

-- `_check_per_bridge_metrics_ports`
unfoldable pub check_per_bridge_metrics_ports : PrometheusConf → List BridgeSpec → Result (Unit {0})
check_per_bridge_metrics_ports p specs = do
  seen ← take_ports [] specs
  raise_if (any (λ b. port_taken p seen (listening_at b.transport b.tcp_bind)) specs) value_error

-- `_check_freshness_threshold_allows_polling`
unfoldable pub check_freshness_threshold : List BridgeSpec → Result (Unit {0})
check_freshness_threshold specs =
    raise_if (any (λ b. ltb b.max_data_age (b.poll_interval * 2)) specs) value_error

-- `metrics_port_for`
abbrev pub own_port : String → BridgeSpec → Option ℕ
own_port only b = if b.name == only then b.metrics_port else none

abbrev pub first_port : String → ℕ → List BridgeSpec → ℕ
first_port only default [] = default
first_port only default (b ∷ bs) = elim (own_port only b) [
  | none ↦ first_port only default bs
  | some port ↦ port
]

unfoldable pub metrics_port_for : PrometheusConf → List BridgeSpec → Option String → ℕ
metrics_port_for p specs none = p.port
metrics_port_for p specs (some only) = first_port only p.port specs
