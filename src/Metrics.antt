-- ===== src/Metrics.antt =====
-- src/nd45_dtsu666/metrics.py: the exposition of the counters. The renderer's calls of `_Out` are a
-- list of calls in their order, and `_Out` carries them out. Names of families are without their
-- prefix `nd45_dtsu666_`, which all of them have; the text of a help line is left out.
pub mod Readings
pub mod OneBridge
pub mod Aliases
pub mod Endpoint
pub mod Exposition
pub mod Health
use nd45_dtsu666_converter.Server.Frames.{WireActivity}
use nd45_dtsu666_converter.Server.Activity.{RtuActivity}
use nd45_dtsu666_converter.Server.Identity.{rtu, tcp, Transport}
use nd45_dtsu666_converter.Registers.{TargetSide}
use nd45_dtsu666_converter.Canonical.{CanonicalStore}
use nd45_dtsu666_converter.Stats.{Heartbeat, RecoveryStats, PollStats, ServerStatus}
use nd45_dtsu666_converter.Clock.{Age}
use nd45_dtsu666_converter.Base.Int.{sub_ℕ, pos_part}
use nd45_dtsu666_converter.Base.{
  err, ok, ◌++◌, ◌∷◌, [], List, some, none, Option, Bool, String, Result, Exc, mem, Dict, string_eq,
  nat_eq, if◌then◌else◌, leb, ℕ,
}

-- What `_fmt` prints: a whole number, an age in seconds, a rate (a count over a window), a float.
pub data Value (F : Type 0) : Type 0 where
  whole : ℕ → Value F
  seconds : Age → Value F
  per_window : ℕ → ℕ → Value F
  measured : F → Value F

pub data LabelValue : Type 0 where
  shown : String → LabelValue
  digits : ℕ → LabelValue
  error_type : Exc → LabelValue

abbrev pub Labels : Type 0
Labels = List (String × LabelValue)

pub data Kind : Type 0 where
  gauge counter : Kind

-- One call of `out.family` or `out.sample`, or an exception that ends the rendering.
pub data Call (F : Type 0) : Type 0 where
  family : String → Kind → Call F
  sample : String → Value F → Labels → Call F
  fails : Exc → Call F

-- One line of the text.
pub data Line (F : Type 0) : Type 0 where
  help_line : String → Line F
  type_line : String → Kind → Line F
  sample_line : String → Labels → Value F → Line F

-- `_Out`
pub record Out (F : Type 0) : Type 0 where
  pub out_lines : List (Line F)
  pub declared : List String

module _ {F : Type 0} where
  abbrev pub new_out : Out F
  new_out = record { out_lines = []; declared = [] }

  -- `_Out.family`
  unfoldable pub out_family : String → Kind → Out F → Out F
  out_family name kind out = if mem name out.declared then out else record {
    out_lines = out.out_lines ++ help_line name ∷ type_line name kind ∷ [];
    declared = name ∷ out.declared;
  }

  -- `_Out.sample`
  unfoldable pub out_sample : String → Value F → Labels → Out F → Out F
  out_sample name value labels out = record out {
    out_lines = out.out_lines ++ sample_line name labels value ∷ [];
  }

  unfoldable pub perform_calls : Out F → List (Call F) → Result (Out F)
  perform_calls out [] = ok out
  perform_calls out (family name kind ∷ calls) = perform_calls (out_family name kind out) calls
  perform_calls out (sample name value labels ∷ calls) =
      perform_calls (out_sample name value labels out) calls
  perform_calls out (fails e ∷ calls) = err e

  -- A family with its one sample.
  abbrev pub single : String → Kind → Value F → Labels → List (Call F)
  single name kind value labels = family name kind ∷ sample name value labels ∷ []

  -- `1 if b else 0`
  abbrev pub flag : Bool → Value F
  flag b = whole (if b then 1 else 0)

-- The parts of a bridge's configuration that the endpoint reads.
pub record BridgeConf (F : Type 0) : Type 0 where
  pub source_type : String
  pub register_map : String
  pub transport : Transport
  pub slave_id : ℕ
  -- `dtsu.rtu.port`; host and port of `dtsu.tcp`
  pub serial_port : Option String
  pub tcp_bind : Option (String × ℕ)
  pub max_data_age : ℕ
  pub poll_interval : ℕ
  pub stall_timeout : ℕ
  pub ct_ratio : F

-- `BridgeMetrics`; `connected` is that attribute of the client, if it has one.
pub record BridgeMetrics (F : Type 0) : Type 0 where
  pub name : String
  pub spec : BridgeConf F
  pub store : CanonicalStore F
  pub poll_stats : PollStats
  pub server_status : ServerStatus
  pub recovery : RecoveryStats
  pub activity : Option RtuActivity
  pub wire : Option WireActivity
  pub heartbeat : Option Heartbeat
  pub connected : Option Bool

-- `MetricsSource`, with `prometheus.include_registers` of its configuration. The heartbeat of the
-- watchdog is the slowest of the heartbeats given, if it is watched.
pub record MetricsSource (F : Type 0) : Type 0 where
  pub include_registers : Bool
  pub bridges : List (BridgeMetrics F)
  pub targets : List (String × TargetSide F)
  pub watched : Option (List Heartbeat)
  pub mode : String
  pub version : String
  pub started_at : ℕ

-- Insertion by a test that tells whether the first may stand before the second; `sorted` is stable.
module _ {A : Type 0} (before : A → A → Bool) where
  abbrev pub insert_sorted : A → List A → List A
  insert_sorted a [] = a ∷ []
  insert_sorted a (b ∷ bs) = if before a b then a ∷ b ∷ bs else b ∷ insert_sorted a bs

  unfoldable pub sorted : List A → List A
  sorted [] = []
  sorted (a ∷ as_) = insert_sorted a (sorted as_)

-- `Counter.most_common`
unfoldable pub most_common : {K : Type 0} → Dict K ℕ → Dict K ℕ
unfolding sorted
most_common tally = sorted (λ a b. leb b.1 a.1) tally

-- `RtuActivity.summary`: the reads in the window, for the rate
abbrev pub recent_times : RtuActivity → ℕ → List ℕ
recent_times s now = keep s.times
  where
    keep : List ℕ → List ℕ
    keep [] = []
    keep (t ∷ ts) = if leb (pos_part (sub_ℕ now t)) s.rate_window then t ∷ keep ts else keep ts

-- `dtsu.transport`
abbrev pub transport_name : Transport → String
transport_name rtu = "rtu"
transport_name tcp = "tcp"

-- `_output_desc`; host and port of a listener are kept apart
unfoldable pub output_desc : Transport → Option String → Option (String × ℕ) → Labels
output_desc rtu (some port) bind = ("output", shown port) ∷ []
output_desc rtu none (some (host, port)) = ("output", shown host) ∷ ("output", digits port) ∷ []
output_desc tcp port (some (host, number)) = ("output", shown host) ∷ ("output", digits number) ∷ []
output_desc rtu none none = ("output", shown "unknown") ∷ []
output_desc tcp port none = ("output", shown "unknown") ∷ []
