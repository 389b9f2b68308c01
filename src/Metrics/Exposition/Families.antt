-- ===== src/Metrics/Exposition/Families.antt =====
-- metrics.py: the calls of the state families.
use nd45_dtsu666_converter.Metrics.Endpoint.{process_calls, watchdog_calls}
use nd45_dtsu666_converter.Metrics.Exposition.{Sampled-append, Sampled}
use nd45_dtsu666_converter.Metrics.OneBridge.{
  bridge_identity, recovery_state, block_samples, request_state, frame_samples, output_state,
  connected_calls, wire_state, source_state, render_bridge_dtsu, render_bridge_source, error_calls,
  heartbeat_calls, server_state,
}
use nd45_dtsu666_converter.Metrics.Aliases.{alias_source, alias_server, alias_requests}
use nd45_dtsu666_converter.Server.Frames.{WireActivity}
use nd45_dtsu666_converter.Server.Activity.{RtuActivity, Block}
use nd45_dtsu666_converter.Metrics.{
  MetricsSource, error_type, BridgeConf, flag, gauge, most_common, Value, Kind, whole, sample,
  single, Call, Labels, family, BridgeMetrics, fails,
}
use nd45_dtsu666_converter.Stats.{ServerStatus, Heartbeat}
use nd45_dtsu666_converter.Base.{
  false, ◌++◌, arith, ◌∷◌, [], List, some, none, Option, ◌&&◌, true, Bool, refl, ◌≡◌, String, Exc,
  mem, Dict, string_eq, nat_eq, ℕ,
}

-- The same by computation, for calls whose names are literals.
abbrev is_sampled : {F : Type 0} → List String → List (Call F) → Bool
is_sampled seen [] = true
is_sampled seen (family name kind ∷ calls) = is_sampled (name ∷ seen) calls
is_sampled seen (sample name value labels ∷ calls) = mem name seen && is_sampled seen calls
is_sampled seen (fails e ∷ calls) = false

-- Calls that declare what they sample themselves.
pub record IsClean {F : Type 0} (calls : List (Call F)) : Type 0 where
  pub sampled : Sampled [] calls

module _ {F : Type 0} where
  Sampled-computed :
      (seen : List String) (calls : List (Call F))
      → is_sampled seen calls ≡ true
      → Sampled seen calls
  Sampled-computed seen [] h = tt
  Sampled-computed seen (family name kind ∷ calls) h = Sampled-computed (name ∷ seen) calls h
  Sampled-computed seen (sample name value labels ∷ calls) h =
      (ground arith, Sampled-computed seen calls (ground arith))
  Sampled-computed seen (fails e ∷ calls) h = h

  pub IsClean-computed : (calls : List (Call F)) → is_sampled [] calls ≡ true → IsClean calls
  IsClean-computed calls h = record { sampled = Sampled-computed [] calls h }

  infixl 5 ◌and_then◌
  pub ◌and_then◌ : {xs ys : List (Call F)} → IsClean xs → IsClean ys → IsClean (xs ++ ys)
  ◌and_then◌ {xs} {ys} h k = record { sampled = Sampled-append [] xs ys h.sampled k.sampled }

  single-IsClean :
      (name : String) (kind : Kind) (value : Value F) (labels : Labels)
      → IsClean (single name kind value labels)
  single-IsClean name kind value labels = record {
    sampled = (ground (arith, string_eq.beq_iff name name), tt);
  }

module _ (F : Type 0) where
  pub connected_calls-IsClean :
      (name : String) (c : Option Bool) (label : Labels)
      → IsClean {F = F} (connected_calls name c label)
  connected_calls-IsClean name none label = record { sampled = tt }
  connected_calls-IsClean name (some up) label = single-IsClean name gauge (flag up) label

  pub error_calls-IsClean :
      (name : String) (e : Option Exc) (label : Labels) → IsClean {F = F} (error_calls name e label)
  error_calls-IsClean name none label = record { sampled = tt }
  error_calls-IsClean name (some e) label =
      single-IsClean name gauge (whole 1) (label ++ ("type", error_type e) ∷ [])

  -- A loop that emits samples of one family.
  block_samples-Sampled :
      (seen : List String) (name : String) (label : Labels) (blocks : Dict Block ℕ)
      → mem name seen ≡ true
      → Sampled {F = F} seen (block_samples name label blocks)
  block_samples-Sampled seen name label [] h = tt
  block_samples-Sampled seen name label ((k, hits) ∷ rest) h =
      (h, block_samples-Sampled seen name label rest h)

  frame_samples-Sampled :
      (seen : List String) (label : Labels) (frames : Dict ℕ ℕ)
      → mem "bridge_dtsu_bus_frames_total" seen ≡ true
      → Sampled {F = F} seen (frame_samples label frames)
  frame_samples-Sampled seen label [] h = tt
  frame_samples-Sampled seen label ((k, hits) ∷ rest) h =
      (h, frame_samples-Sampled seen label rest h)

  wire_state-IsClean :
      (wire : Option WireActivity) (label : Labels) → IsClean {F = F} (wire_state wire label)
  wire_state-IsClean none label = record { sampled = tt }
  wire_state-IsClean (some wire) label = record {
    sampled = (refl, frame_samples-Sampled _ label (most_common wire.frames) refl);
  }

  request_state-IsClean :
      (activity : RtuActivity) (label : Labels) (now : ℕ)
      → IsClean {F = F} (request_state activity label now)
  unfolding request_state
  request_state-IsClean activity label now = record {
    sampled =
        (refl, (refl, (refl, block_samples-Sampled _ _ label (most_common activity.blocks) refl)));
  }

  pub alias_requests-IsClean :
      (activity : RtuActivity) (now : ℕ) → IsClean {F = F} (alias_requests activity now)
  unfolding alias_requests
  alias_requests-IsClean activity now = record {
    sampled =
        (refl, (refl, (refl, block_samples-Sampled _ _ [] (most_common activity.blocks) refl)));
  }

  server_state-IsClean :
      (status : ServerStatus) (label : Labels) (now : ℕ)
      → IsClean {F = F} (server_state status label now)
  unfolding server_state
  server_state-IsClean status label now = IsClean-computed (server_state status label now) refl

  output_state-IsClean :
      (activity : Option RtuActivity) (wire : Option WireActivity) (label : Labels) (now : ℕ)
      → IsClean {F = F} (output_state activity wire label now)
  output_state-IsClean none wire label now = record { sampled = tt }
  output_state-IsClean (some activity) wire label now =
      request_state-IsClean activity label now and_then wire_state-IsClean wire label

module _ {F : Type 0} where
  heartbeat_calls-IsClean :
      (spec : BridgeConf F) (h : Option Heartbeat) (label : Labels) (now : ℕ)
      → IsClean (heartbeat_calls spec h label now)
  heartbeat_calls-IsClean spec none label now = record { sampled = tt }
  heartbeat_calls-IsClean spec (some h) label now =
      IsClean-computed (heartbeat_calls spec (some h) label now) refl

  source_state-IsClean :
      (b : BridgeMetrics F) (label : Labels) (loop_now now : ℕ)
      → IsClean (source_state b label loop_now now)
  unfolding source_state
  source_state-IsClean b label loop_now now =
      IsClean-computed (source_state b label loop_now now) refl

  recovery_state-IsClean :
      (b : BridgeMetrics F) (label : Labels) (now : ℕ) → IsClean (recovery_state b label now)
  unfolding recovery_state
  recovery_state-IsClean b label now = IsClean-computed (recovery_state b label now) refl

  pub render_bridge_source-IsClean :
      (b : BridgeMetrics F) (label : Labels) (loop_now now : ℕ)
      → IsClean (render_bridge_source b label loop_now now)
  unfolding render_bridge_source
  render_bridge_source-IsClean b label loop_now now =
      connected_calls-IsClean F "bridge_source_connected" b.connected label
      and_then source_state-IsClean b label loop_now now
      and_then error_calls-IsClean F "bridge_last_poll_error_info" b.poll_stats.last_error_type
          label
      and_then recovery_state-IsClean b label now
      and_then heartbeat_calls-IsClean b.spec b.heartbeat label now

  pub render_bridge_dtsu-IsClean :
      (b : BridgeMetrics F) (label : Labels) (now : ℕ) → IsClean (render_bridge_dtsu b label now)
  unfolding render_bridge_dtsu
  render_bridge_dtsu-IsClean b label now =
      server_state-IsClean F b.server_status label now
      and_then output_state-IsClean F b.activity b.wire label now

  pub bridge_identity-IsClean :
      (b : BridgeMetrics F) (label : Labels) → IsClean (bridge_identity b label)
  unfolding bridge_identity
  bridge_identity-IsClean b label = IsClean-computed (bridge_identity b label) refl

  pub alias_source-IsClean :
      (b : BridgeMetrics F) (loop_now now : ℕ) → IsClean (alias_source b loop_now now)
  unfolding alias_source
  alias_source-IsClean b loop_now now = IsClean-computed (alias_source b loop_now now) refl

  pub process_calls-IsClean :
      (source : MetricsSource F) (now : ℕ) → IsClean (process_calls source now)
  unfolding process_calls
  process_calls-IsClean source now = IsClean-computed (process_calls source now) refl

module _ (F : Type 0) where
  pub alias_server-IsClean :
      (status : ServerStatus) (now : ℕ) → IsClean {F = F} (alias_server status now)
  unfolding alias_server
  alias_server-IsClean status now = IsClean-computed (alias_server status now) refl

  pub watchdog_calls-IsClean :
      (watched : Option (List Heartbeat)) (now : ℕ) → IsClean {F = F} (watchdog_calls watched now)
  unfolding watchdog_calls
  watchdog_calls-IsClean none now = record { sampled = tt }
  watchdog_calls-IsClean (some hs) now = IsClean-computed (watchdog_calls (some hs) now) refl
