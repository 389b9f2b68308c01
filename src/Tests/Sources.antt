-- ===== src/Tests/Sources.antt =====
-- The SmartLogger, the e2TANGO controllers and the identity registers at concrete inputs.
use nd45_dtsu666_converter.App.Chain.{huawei_sample_complete}
use nd45_dtsu666_converter.Pollers.Huawei.Sample.{Scrubbed, huawei_poll-Scrubbed}
use nd45_dtsu666_converter.Pollers.Etango.Strict.{ReadAll, contributing, etango_poll_strict}
use nd45_dtsu666_converter.Pollers.Huawei.{note_items, scrub}
use nd45_dtsu666_converter.Pollers.Etango.{
  DeviceLink, combine, aggregate_mode, aggregating, device_values,
}
use nd45_dtsu666_converter.Pollers.Nd45.{out_of_range}
use nd45_dtsu666_converter.Registers.Map.{
  check_every_source_produces, source_by_name, targets, RegisterMap,
}
use nd45_dtsu666_converter.Server.Identity.Documented.{
  write_static_registers_serves, BlockLaws, Reads, documented, IsBaudCode,
}
use nd45_dtsu666_converter.Server.Encode.{update_datastore}
use nd45_dtsu666_converter.Server.Identity.{write_static_registers, rtu, DtsuConf, DtsuIdentityConf}
use nd45_dtsu666_converter.Registers.{
  fc3, sum, copy, avg, fc4, SourcePoint, check_arity, SourceSide,
}
use nd45_dtsu666_converter.Pollers.{extract_registers, registers, Client, read_declared}
use nd45_dtsu666_converter.Canonical.{Values, compute_derived, apply_derive, apply_kind}
use nd45_dtsu666_converter.Base.Int.{negsuc, pos}
use nd45_dtsu666_converter.Base.{
  arith, inr, inl, ◌⊎◌, ◌≤◌, ◌+◌, Bool-cases, ltb, false, ◌↔◌, key_error, err, ok, ◌∷◌, [], List,
  some, none, true, ◌≢◌, refl, ◌≡◌, String, All, replicate, ℕ, string_eq, nat_eq,
}
use nd45_dtsu666_converter.Tests.Numbers.{num_floats, num_laws, num, Num}
use nd45_dtsu666_converter.Tests.Memory.{memory, memory_laws, Memory}
use nd45_dtsu666_converter.Tests.Serving.{served}
use nd45_dtsu666_converter.Pollers.Huawei
use nd45_dtsu666_converter.Pollers.Etango
use nd45_dtsu666_converter.Codec.{
  word_bytes, decode_int_point, int_sentinel, registers_to_int, registers_to_float, int_is_invalid,
  register_width,
}

abbrev logger_point : ℕ → String → SourcePoint Num
logger_point a dtype = record {
  addr = some a;
  compose = none;
  factors = none;
  scale = num (pos 1);
  offset = num (pos 0);
  sign = pos 1;
  dtype = dtype;
  aggregate = avg;
}

abbrev logger : SourceSide Num
logger = record {
  word_order = "big";
  byte_order = "big";
  points =
      ("p_total", logger_point 1000 "i32") ∷ ("imp_energy_total", logger_point 1002 "u16") ∷ [];
  read_groups = some (record { base = 1000; count = 4; unit_id = some 12 } ∷ []);
  address_offset = negsuc 0;
  derive =
      record {
        op = copy;
        targets = "q_total" ∷ [];
        from_ = "p_total" ∷ [];
        weights = [];
        value = none;
        aggregate = avg;
      }
      ∷ [];
}

-- Every register reads 65535: the four-byte integer is -1, the two-byte one is not available.
abbrev ones : Client
ones base count unit_id = registers (replicate count 65535)

logger_steps : All (λ o. check_arity o ≡ ok tt) logger.derive
unfolding check_arity
logger_steps = (refl, tt)

abbrev logged : Values Num
logged =
    ("p_total", num (negsuc 0))
    ∷ ("imp_energy_total", num (pos 0))
    ∷ ("q_total", num (negsuc 0))
    ∷ []

logger_polled : (Huawei.poll_once ones logger 1 none).0 ≡ ok (compute_derived logged)
unfolding Huawei.poll_once Huawei.read_groups Huawei.decode_source Huawei.decode_from
    Huawei.note_items Huawei.scrub read_declared extract_registers register_width decode_int_point
    registers_to_int int_is_invalid int_sentinel apply_derive apply_kind compute_derived word_bytes
logger_polled = refl

huawei_poll-Scrubbed_example : Scrubbed logger (compute_derived logged)
huawei_poll-Scrubbed_example =
    huawei_poll-Scrubbed num_laws ones logger 1 none logger_steps logger_polled

abbrev logger_map : RegisterMap Num
logger_map = record {
  nd45_source = logger;
  dtsu_target = served;
  dtsu_sigen_ext_target = record {
    word_order = "big";
    byte_order = "big";
    function_code = fc4;
    points = [];
  };
  dtsu_sigen_ext_energy = record {
    word_order = "big";
    byte_order = "big";
    function_code = fc4;
    points = [];
  };
  dtsu_sigen_identity = record { points = [] };
  huawei_plant_source = some logger;
  huawei_meter_source = none;
  etango_source = none;
}

logger_map_checked : check_every_source_produces logger_map ≡ ok tt
unfolding check_every_source_produces
logger_map_checked = refl

logger_named : source_by_name logger_map "huawei_plant_source" ≡ ok logger
unfolding source_by_name
logger_named = refl

abbrev empty_memory : Memory
empty_memory fc a = 0

huawei_sample_complete_example :
    (update_datastore empty_memory (compute_derived logged) (targets logger_map) (num (pos 40))).0
    ≢ err key_error
huawei_sample_complete_example =
    huawei_sample_complete num_laws logger_map "huawei_plant_source" ones 1 none empty_memory
      (num (pos 40)) logger_map_checked logger_named logger_steps logger_polled

abbrev pub feeder : SourceSide Num
feeder = record {
  word_order = "big";
  byte_order = "big";
  points = ("p_total", record (logger_point 10 "float32") { aggregate = sum }) ∷ [];
  read_groups = some (record { base = 10; count = 2; unit_id = none } ∷ []);
  address_offset = pos 0;
  derive = [];
}

abbrev pub twos : Client
twos base count unit_id = registers (replicate count unit_id)

abbrev pub two_feeders : List DeviceLink
two_feeders =
    record { client = twos; unit_id = 1; aggregate = true }
    ∷ record { client = twos; unit_id = 2; aggregate = true }
    ∷ []

pub feeders_polled :
    Etango.poll_once two_feeders feeder ≡ ok (compute_derived (("p_total", num (pos 196611)) ∷ []))
unfolding Etango.poll_once Etango.device_values Etango.read_groups Etango.decode_source
    Etango.decode_from combine aggregate_mode read_declared extract_registers register_width
    registers_to_float out_of_range apply_derive compute_derived word_bytes
feeders_polled = refl

-- a third controller, which is read but does not aggregate
abbrev three_feeders : List DeviceLink
three_feeders = record { client = twos; unit_id = 3; aggregate = false } ∷ two_feeders

etango_poll_strict_example :
    (Etango.poll_once three_feeders feeder
      ≡ ok (compute_derived (("p_total", num (pos 196611)) ∷ [])))
    ↔ (((per_device : List (Values Num)) × ReadAll feeder three_feeders per_device)
        × (Etango.poll_once (contributing three_feeders) feeder
            ≡ ok (compute_derived (("p_total", num (pos 196611)) ∷ []))))
etango_poll_strict_example =
    etango_poll_strict three_feeders feeder (compute_derived (("p_total", num (pos 196611)) ∷ []))

abbrev some_identity : DtsuIdentityConf
some_identity = record {
  rev = 100;
  ucode = 0;
  clr_e = 0;
  net = 0;
  ir_at = 40;
  ur_at = 10;
  disp = 0;
  b_lcd = 0;
  endian = 0;
  protocol = 0;
  handshake_magic = 5376;
}

abbrev some_dtsu : DtsuConf
some_dtsu = record { transport = rtu; identity = some_identity; rtu_baudrate = some 4800 }

memory_block : BlockLaws memory 71
memory_block = record {
  get-set = λ s a v l. memory_laws.get-set s fc3 a (v ∷ []);
  get-set_other =
      λ s a b v la lb n. memory_laws.get-set_apart s fc3 fc3 a b 1 (v ∷ []) (inr (apart a b n));
}
  where
    apart : (a b : ℕ) → a ≢ b → (a + 1 ≤ b) ⊎ (b + 1 ≤ a)
    apart a b n = elim (Bool-cases (ltb a b)) [
      | inl less ↦ inl (ground arith)
      | inr not_less ↦ inr (ground arith)
    ]

write_static_registers_example :
    let (outcome, s') = write_static_registers empty_memory 7 some_dtsu in
    (outcome ≡ ok tt)
    × All (Reads memory_block s') (documented some_identity 7)
    × ((code : ℕ) × Reads memory_block s' (45, code) × IsBaudCode 4800 code)
write_static_registers_example =
    write_static_registers_serves memory_block empty_memory 7 4800 some_dtsu (omega arith) refl
