-- ===== src/Tests/Metrics.antt =====
-- The endpoint, scraped with one bridge that was polled once.
use nd45_dtsu666_converter.Metrics.Exposition.Rendered.{render-Declares}
use nd45_dtsu666_converter.Metrics.Health.{route_healthz, IsServing}
use nd45_dtsu666_converter.Metrics.Exposition.{reading, read_text}
use nd45_dtsu666_converter.Metrics.Endpoint.{
  begins_word, target_of, is_space, parse_request, health_part, stale_names, some_stale, render,
  route, all_ok, split, upper, codes,
}
use nd45_dtsu666_converter.Server.Activity.{new_activity}
use nd45_dtsu666_converter.Server.Identity.{tcp}
use nd45_dtsu666_converter.Tests.Serving.{served}
use nd45_dtsu666_converter.Tests.Numbers.{Num, num, undefined, num_laws, num_floats}
use nd45_dtsu666_converter.Metrics.{BridgeMetrics, Line, MetricsSource}
use nd45_dtsu666_converter.Stats.{new_server_status, new_poll_stats, new_recovery, new_heartbeat}
use nd45_dtsu666_converter.Base.Int.{negsuc, pos}
use nd45_dtsu666_converter.Base.{
  ok, arith, map, ◌∷◌, [], List, some, none, true, ◌↔◌, refl, ◌≡◌, String, All, of_nat,
}

abbrev shown_bridge : BridgeMetrics Num
shown_bridge = record {
  name = "main";
  spec = record {
    source_type = "nd45";
    register_map = "meter";
    transport = tcp;
    slave_id = 1;
    serial_port = none;
    tcp_bind = some ("localhost", 5020);
    max_data_age = 3;
    poll_interval = 1;
    stall_timeout = 60;
    ct_ratio = num (pos 40);
  };
  store = record { values_ = ("p_total", num (pos 400)) ∷ []; ts = some 5 };
  poll_stats = new_poll_stats;
  server_status = new_server_status;
  recovery = new_recovery;
  activity = some (new_activity 8 5 64);
  wire = none;
  heartbeat = some new_heartbeat;
  connected = some true;
}

abbrev scraped : MetricsSource Num
scraped = record {
  include_registers = true;
  bridges = shown_bridge ∷ [];
  targets = ("dtsu", served) ∷ [];
  watched = none;
  mode = "run";
  version = "1";
  started_at = 0;
}

num_eq_le : (x : Num) → num_floats.eq x (of_nat 0) ≡ true → num_floats.le x (of_nat 0) ≡ true
num_eq_le (num (pos n)) h = ground arith
num_eq_le (num (negsuc n)) h = absurd (cc)
num_eq_le undefined h = absurd (cc)

render-Declares_example :
    (lines : List (Line Num)) × (families : List String) × (render scraped 6 6 ≡ ok lines)
    × (read_text (reading none []) lines ≡ reading none families)
render-Declares_example = render-Declares num_laws num_eq_le scraped 6 6

route_healthz_example :
    ((route (some (codes "/healthz")) scraped 6 6
        ≡ ok (200, all_ok (map (health_part 6) scraped.bridges)))
      ↔ All (IsServing 6) scraped.bridges)
    × ((route (some (codes "/healthz")) scraped 6 6
          ≡ ok (
            503,
            some_stale
                (stale_names (map (health_part 6) scraped.bridges))
                (map (health_part 6) scraped.bridges),
          ))
        ↔ (¬ All (IsServing 6) scraped.bridges))
route_healthz_example = route_healthz scraped 6 6

asked : parse_request (codes "get /healthz?full=1 HTTP/1.1") ≡ some (codes "/healthz")
unfolding parse_request is_space upper split target_of begins_word
asked = refl
