-- ===== src/Tests/Loading.antt =====
-- A configuration with a legacy bridge and two listed ones.
use nd45_dtsu666_converter.Metrics.Endpoint.{is_space}
use nd45_dtsu666_converter.Settings.Load.{
  legacy_from, check_bridge_names_unique, bridge_specs, select_bridge, legacy_entry, checked_entry,
  AppConfig, legacy_bridge, check_at_least_one_bridge, load_config, select_specs,
}
use nd45_dtsu666_converter.Settings.Select.{load_config-select}
use nd45_dtsu666_converter.Server.Identity.{rtu, tcp}
use nd45_dtsu666_converter.Bridges.{
  check_metrics_port_free, check_freshness_threshold, check_outputs_from,
  check_per_bridge_metrics_ports, check_output_transports,
}
use nd45_dtsu666_converter.Hub.{huawei}
use nd45_dtsu666_converter.Settings.{
  is_white, check_enabled_is_usable, is_blank, check_stall_timeout, check_hub_link_present,
  BridgeEntry, check_source, SourceConf, check_transport_config,
}
use nd45_dtsu666_converter.Base.{ok, ◌∷◌, [], some, none, true, refl, ◌≡◌, String, ℕ}

abbrev pub logger_source : SourceConf
logger_source = record {
  source_type = huawei;
  host = "logger";
  unit_id = 0;
  poll_interval = 5;
  timeout = 6;
  stall_timeout = 60;
  register_map = "huawei_plant_source";
  via_hub = true;
  hub_link = "logger";
  devices = [];
}

abbrev listed : String → ℕ → BridgeEntry
listed name port = record {
  name = name;
  enabled = true;
  source = logger_source;
  transport = tcp;
  serial_port = none;
  tcp_bind = some ("localhost", port);
  metrics_port = none;
  max_data_age = 30;
}

abbrev some_config : AppConfig
some_config = record {
  bridges = listed "plant" 5021 ∷ listed "spare" 5022 ∷ [];
  feed_interval = 1;
  prometheus = record { enabled = true; host = "localhost"; port = 9090 };
  nd45_ = some (record { host = "meter"; unit_id = 1; poll_interval = 1; timeout = 1 });
  dtsu =
      some
        (record { transport = rtu; serial_port = some "ttyS0"; tcp_bind = none; max_data_age = 3 });
  primary_metrics_port = none;
  stall_default = 30;
}

abbrev legacy_one : BridgeEntry
legacy_one =
    legacy_entry some_config
      (record { host = "meter"; unit_id = 1; poll_interval = 1; timeout = 1 })
      (record { transport = rtu; serial_port = some "ttyS0"; tcp_bind = none; max_data_age = 3 })

loaded : load_config some_config ≡ ok (legacy_one ∷ listed "plant" 5021 ∷ listed "spare" 5022 ∷ [])
unfolding load_config check_transport_config checked_entry check_source check_enabled_is_usable
    is_blank legacy_bridge bridge_specs check_at_least_one_bridge check_bridge_names_unique
    check_output_transports check_metrics_port_free check_per_bridge_metrics_ports
    check_freshness_threshold check_hub_link_present check_stall_timeout legacy_from is_white
    is_space check_outputs_from
loaded = refl

load_config-select_example :
    (select_bridge (legacy_one ∷ listed "plant" 5021 ∷ listed "spare" 5022 ∷ []) (some "plant")
      ≡ ok (listed "plant" 5021))
    × (select_specs (legacy_one ∷ listed "plant" 5021 ∷ listed "spare" 5022 ∷ []) (some "plant")
        ≡ ok (listed "plant" 5021 ∷ []))
load_config-select_example =
    load_config-select some_config (legacy_one ∷ []) (listed "plant" 5021)
      (listed "spare" 5022 ∷ []) loaded
