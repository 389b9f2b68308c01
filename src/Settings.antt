-- ===== src/Settings.antt =====
-- src/nd45_dtsu666/config.py: the settings of a process, with the bridges that they describe, and the
-- checks that a configuration passes when it is loaded. Left out are the limits that a field declares
-- (`gt=0`) and the validator of the values of `StaticDebugConf`; `select_bridge` is of src/nd45_dtsu666/diagnostics.py, `select_specs` of
-- src/nd45_dtsu666/app.py.
pub mod Load
pub mod Select
use nd45_dtsu666_converter.Metrics.Endpoint.{codes, is_space}
use nd45_dtsu666_converter.Server.Encode.{is_empty}
use nd45_dtsu666_converter.Server.Identity.{Transport, rtu, tcp}
use nd45_dtsu666_converter.Hub.{SourceType, etango}
use nd45_dtsu666_converter.Base.{
  err, some, none, value_error, ok, map, ◌∷◌, [], List, Option, ◌||◌, ◌&&◌, not, false, true, Bool,
  String, ◌*◌, Result, raise_if, ◌>>◌, ◌>>=◌, mem, all, any, string_eq, nat_eq, ◌==◌, if◌then◌else◌,
  leb, ℕ,
}

pub record EtangoDeviceConf : Type 0 where
  pub host : String
  pub unit_id : ℕ
  pub hub_link : String
  pub aggregate : Bool

-- One of the three source settings, by its type. A single-host source has no devices, and an e2TANGO
-- source no host of its own.
pub record SourceConf : Type 0 where
  pub source_type : SourceType
  pub host : String
  pub unit_id : ℕ
  pub poll_interval : ℕ
  pub timeout : ℕ
  pub stall_timeout : ℕ
  pub register_map : String
  pub via_hub : Bool
  pub hub_link : String
  pub devices : List EtangoDeviceConf

abbrev pub has_devices : SourceType → Bool
has_devices etango = true
has_devices _ = false

-- `_check_hub_link_present_when_via_hub`
unfoldable pub check_hub_link_present : SourceConf → Result (Unit {0})
check_hub_link_present s =
    raise_if (s.via_hub && (s.hub_link == "" && not (has_devices s.source_type))) value_error

-- `_check_stall_timeout_exceeds_poll_interval`
unfoldable pub check_stall_timeout : SourceConf → Result (Unit {0})
check_stall_timeout s = raise_if (leb s.stall_timeout (s.poll_interval * 2)) value_error

abbrev pub has_repeats : List String → Bool
has_repeats [] = false
has_repeats (x ∷ xs) = mem x xs || has_repeats xs

-- `if self.via_hub` of `_check_devices`
abbrev pub check_links : Bool → List EtangoDeviceConf → Result (Unit {0})
check_links false devices = ok tt
check_links true devices = do
  raise_if (any (λ d. d.hub_link == "") devices) value_error
  raise_if (has_repeats (map (λ d. d.hub_link) devices)) value_error

-- `_check_devices`
unfoldable pub check_devices : SourceConf → Result (Unit {0})
check_devices s = do
  raise_if (is_empty s.devices) value_error
  raise_if (not (any (λ d. d.aggregate) s.devices)) value_error
  check_links s.via_hub s.devices

-- The checks of a source, those of the base class first.
unfoldable pub check_source : SourceConf → Result (Unit {0})
unfolding check_hub_link_present check_stall_timeout check_devices
check_source s = do
  check_hub_link_present s
  check_stall_timeout s
  if has_devices s.source_type then check_devices s else ok tt

-- A `BridgeConf`: its source and what the checks between bridges read of its output.
pub record BridgeEntry : Type 0 where
  pub name : String
  pub enabled : Bool
  pub source : SourceConf
  pub transport : Transport
  pub serial_port : Option String
  pub tcp_bind : Option (String × ℕ)
  pub metrics_port : Option ℕ
  pub max_data_age : ℕ

-- `DtsuConf._check_transport_config`: the settings of the transport, by their port and their address
unfoldable pub check_transport_config :
    Transport → Option String → Option (String × ℕ) → Result (Unit {0})
check_transport_config rtu none tcp_bind = err value_error
check_transport_config rtu (some port) tcp_bind = ok tt
check_transport_config tcp serial_port none = err value_error
check_transport_config tcp serial_port (some address) = ok tt

-- `str.isspace` of a character, by its code
unfoldable pub is_white : ℕ → Bool
unfolding is_space
is_white c =
    is_space c
    || (mem c (5760 ∷ 8232 ∷ 8233 ∷ 8239 ∷ 8287 ∷ 12288 ∷ []) || leb 8192 c && leb c 8202)

-- `host.strip()` is empty
unfoldable pub is_blank : String → Bool
unfolding is_white
is_blank s = all is_white (codes s)

-- `_check_enabled_is_usable`
unfoldable pub check_enabled_is_usable : BridgeEntry → Result (Unit {0})
unfolding is_blank
check_enabled_is_usable b =
    if not b.enabled
    then ok tt
    else if has_devices b.source.source_type
    then raise_if (not (any (λ d. d.aggregate && not (is_blank d.host)) b.source.devices))
        value_error
    else raise_if (is_blank b.source.host) value_error
