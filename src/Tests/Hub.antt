-- ===== src/Tests/Hub.antt =====
-- A small stream of modbus-hub, read by the ND45 bridge.
use nd45_dtsu666_converter.Hub.Connection.Reach.{IsConsistent, Reaches-IsConsistent}
use nd45_dtsu666_converter.Hub.Connection.Delay.{Reaches-delay}
use nd45_dtsu666_converter.Hub.Newest.{replay, cache_lookup_refines, Update, Ascending}
use nd45_dtsu666_converter.Hub.Connection.{
  failure, message, Connection, start_stream, here, Backoff, next, on_failure, Message,
  new_connection, Reaches, on_message, starting,
}
use nd45_dtsu666_converter.Hub.Failsafe.{expired_poll_keeps}
use nd45_dtsu666_converter.Hub.Answered.{cache_lookup-IsAnswered, IsAnswered}
use nd45_dtsu666_converter.Tests.Serving.{served, new_bridge, meter}
use nd45_dtsu666_converter.Tests.Numbers.{num, num_floats}
use nd45_dtsu666_converter.Tests.Memory.{memory}
use nd45_dtsu666_converter.Pollers.{registers}
use nd45_dtsu666_converter.Pollers.Nd45
use nd45_dtsu666_converter.Hub.{
  Request, set_stream_error, cache_lookup, Entry, newest, new_cache, BlockKey, BlockCache,
  hub_client, fc_holding, cache_update,
}
use nd45_dtsu666_converter.App.{poll_round}
use nd45_dtsu666_converter.Base.Int.{pos}
use nd45_dtsu666_converter.Base.{
  poll_error, err, arith, ◌∷◌, [], List, some, none, true, inl, refl, ◌≡◌, String, ◌≤◌,
}

abbrev head_block : BlockKey
head_block = record { link = "meter"; unit_id = 1; fc = fc_holding; base = pos 50; count = 3 }

abbrev two_updates : List Update
two_updates =
    record { key = head_block; regs = some (7 ∷ 8 ∷ 9 ∷ []); error = none; at = 4 }
    ∷ record { key = head_block; regs = some (1 ∷ 2 ∷ 3 ∷ []); error = none; at = 6 }
    ∷ []

abbrev one_read : Request
one_read = record { link = "meter"; slave = 1; fc = fc_holding; addr = pos 51; count = 2 }

two_updates-Ascending : Ascending 0 two_updates
two_updates-Ascending = ground arith

cache_lookup_refines_example :
    cache_lookup (replay two_updates (set_stream_error (new_cache 10) none)) one_read 8
    ≡ registers (2 ∷ 3 ∷ [])
cache_lookup_refines_example = cache_lookup_refines two_updates 10 one_read 8 two_updates-Ascending

abbrev filled : BlockCache
filled = replay two_updates (set_stream_error (new_cache 10) none)

answered : cache_lookup filled one_read 8 ≡ registers (2 ∷ 3 ∷ [])
unfolding cache_lookup new_cache set_stream_error cache_update newest
answered = refl

cache_lookup-IsAnswered_example :
    (k : BlockKey) × (e : Entry) × IsAnswered filled one_read 8 (2 ∷ 3 ∷ []) k e
cache_lookup-IsAnswered_example = cache_lookup-IsAnswered filled one_read 8 answered

down_cache : (s : String) × ((new_cache 10).stream_error ≡ some s)
unfolding new_cache
down_cache = ("not connected yet", refl)

expired_poll_keeps_example :
    let polled =
      (Nd45.poll_once
        (hub_client (new_cache 10) "meter" fc_holding (λ a n u. 20))
        meter
        1
        none).0 in
    let b' = poll_round (served ∷ []) (num (pos 40)) new_bridge polled 3 5 in
    (polled ≡ err poll_error) × (b'.slave ≡ new_bridge.slave) × (b'.store ≡ new_bridge.store)
expired_poll_keeps_example =
    expired_poll_keeps (new_cache 10) "meter" (λ a n u. 20) meter 1 none (served ∷ [])
      (num (pos 40)) new_bridge 3 5 (inl down_cache)

abbrev waits : Backoff
waits = record { first = 1; ceiling = 30 }

abbrev one_message : Message
one_message = record { key = head_block; regs = 7 ∷ 8 ∷ 9 ∷ []; error = "" }

abbrev started : Connection
started = start_stream waits (new_connection (head_block ∷ []) 10)

started_runs : started.running ≡ true
unfolding start_stream new_connection
started_runs = refl

ready_path : Reaches waits (new_connection (head_block ∷ []) 10) (on_message started one_message 4)
ready_path =
    next (next here (starting (new_connection (head_block ∷ []) 10)))
      (message started one_message 4 started_runs)

Reaches-IsConsistent_example : IsConsistent (on_message started one_message 4)
Reaches-IsConsistent_example = Reaches-IsConsistent (head_block ∷ []) 10 ready_path

streams : (on_message started one_message 4).running ≡ true
unfolding on_message start_stream new_connection
streams = refl

Reaches-delay_example :
    (1 ≤ (on_message started one_message 4).delay)
    × ((on_message started one_message 4).delay ≤ 30)
    × ((on_message started one_message 4).delay
        ≤ (on_failure waits (on_message started one_message 4) "gone").delay)
Reaches-delay_example =
    Reaches-delay (head_block ∷ []) 10 (omega arith) ready_path
      (failure (on_message started one_message 4) "gone" streams) streams
