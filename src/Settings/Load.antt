-- ===== src/Settings/Load.antt =====
-- src/nd45_dtsu666/config.py: `AppConfig`, its bridges and the checks that run when it is loaded, in
-- their order.
use nd45_dtsu666_converter.Server.Encode.{is_empty}
use nd45_dtsu666_converter.Server.Identity.{Transport}
use nd45_dtsu666_converter.Bridges.{
  check_metrics_port_free, check_per_bridge_metrics_ports, BridgeSpec, PrometheusConf,
  check_output_transports, check_freshness_threshold,
}
use nd45_dtsu666_converter.Hub.{nd45}
use nd45_dtsu666_converter.Settings.{
  BridgeEntry, check_source, has_repeats, check_enabled_is_usable, check_transport_config,
}
use nd45_dtsu666_converter.Base.{
  system_exit, index_error, value_error, err, ok, map, ◌++◌, ◌∷◌, [], List, some, none, Option,
  ◌&&◌, not, false, true, String, Result, map_ok, raise_if, ◌>>◌, ◌>>=◌, mem, is_some, string_eq,
  nat_eq, ◌==◌, if◌then◌else◌, leb, ℕ,
}

-- The legacy top-level settings: `nd45`, and `dtsu` with `safety`.
pub record Nd45Conf : Type 0 where
  pub host : String
  pub unit_id : ℕ
  pub poll_interval : ℕ
  pub timeout : ℕ

pub record LegacyOutput : Type 0 where
  pub transport : Transport
  pub serial_port : Option String
  pub tcp_bind : Option (String × ℕ)
  pub max_data_age : ℕ

-- What a file gives, with `stall_default` the default of `Nd45SourceConf.stall_timeout_s`.
pub record AppConfig : Type 0 where
  pub bridges : List BridgeEntry
  pub feed_interval : ℕ
  pub prometheus : PrometheusConf
  pub nd45_ : Option Nd45Conf
  pub dtsu : Option LegacyOutput
  pub primary_metrics_port : Option ℕ
  pub stall_default : ℕ

-- `PRIMARY_BRIDGE_NAME`
abbrev pub primary_bridge_name : String
primary_bridge_name = "nd45"

abbrev pub legacy_entry : AppConfig → Nd45Conf → LegacyOutput → BridgeEntry
legacy_entry config n out = record {
  name = primary_bridge_name;
  enabled = true;
  source = record {
    source_type = nd45;
    host = n.host;
    unit_id = n.unit_id;
    poll_interval = n.poll_interval;
    timeout = n.timeout;
    stall_timeout = config.stall_default;
    register_map = "nd45_source";
    via_hub = false;
    hub_link = "";
    devices = [];
  };
  transport = out.transport;
  serial_port = out.serial_port;
  tcp_bind = out.tcp_bind;
  metrics_port = config.primary_metrics_port;
  max_data_age = out.max_data_age;
}

-- An entry that is made passes its own checks.
unfoldable pub checked_entry : BridgeEntry → Result BridgeEntry
unfolding check_source check_transport_config check_enabled_is_usable
checked_entry b = do
  check_source b.source
  check_transport_config b.transport b.serial_port b.tcp_bind
  check_enabled_is_usable b
  ok b

-- The output of the legacy bridge passes the check of its transport, whether a bridge comes of it or
-- not.
abbrev pub check_legacy_output : Option LegacyOutput → Result (Unit {0})
check_legacy_output none = ok tt
check_legacy_output (some out) = check_transport_config out.transport out.serial_port out.tcp_bind

unfoldable pub legacy_from :
    AppConfig → Option Nd45Conf → Option LegacyOutput → Result (List BridgeEntry)
unfolding checked_entry
legacy_from config (some n) (some out) =
    checked_entry (legacy_entry config n out) >>= λ b. ok (b ∷ [])
legacy_from config _ _ = ok []

-- `legacy_bridge`, as a list of at most one
unfoldable pub legacy_bridge : AppConfig → Result (List BridgeEntry)
unfolding legacy_from
legacy_bridge config = legacy_from config config.nd45_ config.dtsu

-- `[b for b in self.bridges if b.enabled]`
abbrev pub enabled_only : List BridgeEntry → List BridgeEntry
enabled_only [] = []
enabled_only (b ∷ bs) = if b.enabled then b ∷ enabled_only bs else enabled_only bs

unfoldable pub bridge_specs : AppConfig → Result (List BridgeEntry)
unfolding legacy_bridge
bridge_specs config = legacy_bridge config >>= λ legacy. ok (legacy ++ enabled_only config.bridges)

-- `_check_at_least_one_bridge`, with `bridge_specs` given
unfoldable pub check_at_least_one_bridge : AppConfig → List BridgeEntry → Result (Unit {0})
check_at_least_one_bridge config specs = do
  raise_if (not (is_some config.nd45_) && (not (is_some config.dtsu) && is_empty config.bridges))
      value_error
  raise_if (not (is_some config.nd45_) && is_some config.dtsu) value_error
  raise_if (is_some config.nd45_ && not (is_some config.dtsu)) value_error
  raise_if (is_empty specs) value_error

-- `_check_static_debug_freshness`
abbrev pub check_first_freshness : ℕ → List BridgeEntry → Result (Unit {0})
check_first_freshness feed_interval [] = err index_error
check_first_freshness feed_interval (b ∷ _) =
    raise_if (leb b.max_data_age feed_interval) value_error

abbrev pub entry_names : List BridgeEntry → List String
entry_names bs = map (λ b. b.name) bs

-- `_check_bridge_names_unique`
unfoldable pub check_bridge_names_unique : AppConfig → List BridgeEntry → Result (Unit {0})
check_bridge_names_unique config legacy = do
  raise_if (not (is_empty legacy) && mem primary_bridge_name (entry_names config.bridges))
      value_error
  raise_if (has_repeats (entry_names config.bridges)) value_error

-- what the checks between the bridges read
abbrev pub spec_of : BridgeEntry → BridgeSpec
spec_of b = record {
  name = b.name;
  transport = b.transport;
  serial_port = b.serial_port;
  tcp_bind = b.tcp_bind;
  metrics_port = b.metrics_port;
  poll_interval = b.source.poll_interval;
  max_data_age = b.max_data_age;
}

-- The checks of `AppConfig`, after those of its listed bridges.
unfoldable pub load_config : AppConfig → Result (List BridgeEntry)
unfolding checked_entry legacy_bridge bridge_specs check_at_least_one_bridge
    check_bridge_names_unique check_output_transports check_metrics_port_free
    check_per_bridge_metrics_ports check_freshness_threshold
load_config config = do
  _ ← map_ok checked_entry config.bridges
  check_legacy_output config.dtsu
  specs ← bridge_specs config
  legacy ← legacy_bridge config
  check_at_least_one_bridge config specs
  check_first_freshness config.feed_interval specs
  check_bridge_names_unique config legacy
  check_output_transports (map spec_of specs)
  check_metrics_port_free config.prometheus (map spec_of specs)
  check_per_bridge_metrics_ports config.prometheus (map spec_of specs)
  check_freshness_threshold (map spec_of specs)
  ok specs

-- `select_bridge` of diagnostics.py
abbrev pub named_or_exit : String → List BridgeEntry → Result BridgeEntry
named_or_exit name [] = err system_exit
named_or_exit name (b ∷ bs) = if b.name == name then ok b else named_or_exit name bs

unfoldable pub select_bridge : List BridgeEntry → Option String → Result BridgeEntry
select_bridge specs (some name) = named_or_exit name specs
select_bridge (b ∷ _) none = ok b
select_bridge [] none = err index_error

-- `select_specs` of app.py
abbrev pub named : String → List BridgeEntry → List BridgeEntry
named only [] = []
named only (b ∷ bs) = if b.name == only then b ∷ named only bs else named only bs

abbrev pub some_or_exit : List BridgeEntry → Result (List BridgeEntry)
some_or_exit [] = err system_exit
some_or_exit (b ∷ bs) = ok (b ∷ bs)

unfoldable pub select_specs : List BridgeEntry → Option String → Result (List BridgeEntry)
select_specs specs none = ok specs
select_specs specs (some only) = some_or_exit (named only specs)
