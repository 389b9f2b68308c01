-- ===== src/Tests/HubReady.antt =====
-- A SmartLogger read through modbus-hub.
use nd45_dtsu666_converter.Hub.Ready.{IsLive}
use nd45_dtsu666_converter.Hub.Polled.{ready_source_reads, source_reads}
use nd45_dtsu666_converter.Hub.Connection.{
  message, next, Reaches, Connection, on_message, here, starting, start_stream, new_connection,
  Message, Backoff,
}
use nd45_dtsu666_converter.Registers.{SourceSide, ReadGroup}
use nd45_dtsu666_converter.Pollers.{Groups}
use nd45_dtsu666_converter.Base.Int.{pos}
use nd45_dtsu666_converter.Base.{ok, arith, ◌∷◌, [], List, some, none, true, refl, ◌≡◌}
use nd45_dtsu666_converter.Tests.Numbers.{Num, num_floats}
use nd45_dtsu666_converter.Hub.{
  hub_client, huawei, blocks_for_source, cache_update, BlockKey, set_stream_error, new_cache,
  fc_holding, block_key_eq,
}

abbrev one_group : List ReadGroup
one_group = record { base = 40525; count = 2; unit_id = none } ∷ []

abbrev plant : SourceSide Num
plant = record {
  word_order = "big";
  byte_order = "big";
  points = [];
  read_groups = some one_group;
  address_offset = pos 0;
  derive = [];
}

abbrev plant_block : BlockKey
plant_block = record { link = "logger"; unit_id = 0; fc = fc_holding; base = pos 40525; count = 2 }

abbrev retries : Backoff
retries = record { first = 1; ceiling = 30 }

abbrev opened : Connection
opened = start_stream retries (new_connection (plant_block ∷ []) 10)

abbrev arrived : Message
arrived = record { key = plant_block; regs = 0 ∷ 1500 ∷ []; error = "" }

opened_runs : opened.running ≡ true
unfolding start_stream new_connection
opened_runs = refl

arrival : Reaches retries (new_connection (plant_block ∷ []) 10) (on_message opened arrived 4)
arrival =
    next (next here (starting (new_connection (plant_block ∷ []) 10)))
      (message opened arrived 4 opened_runs)

plant_declared : blocks_for_source huawei plant 0 "logger" ≡ ok (plant_block ∷ [])
unfolding blocks_for_source
plant_declared = refl

is_ready : (on_message opened arrived 4).ready ≡ true
unfolding on_message start_stream new_connection
is_ready = refl

plant-IsLive : IsLive (on_message opened arrived 4).cache (λ addr count slave. 6)
unfolding on_message start_stream new_connection set_stream_error cache_update new_cache
plant-IsLive = record {
  up = refl;
  live = ((refl, (0 ∷ 1500 ∷ [], refl, refl), λ addr count slave. omega arith), tt);
}

ready_source_reads_example :
    (groups : Groups) × (source_reads huawei
        (hub_client (on_message opened arrived 4).cache "logger" fc_holding (λ addr count slave. 6))
        plant
        0
      ≡ ok groups)
ready_source_reads_example =
    ready_source_reads huawei plant 0 "logger" 10 (λ addr count slave. 6) plant_declared arrival
      is_ready plant-IsLive
