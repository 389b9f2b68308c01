-- ===== src/Metrics/Endpoint.antt =====
-- metrics.py: `render`, and the HTTP layer: `parse_request` and `route`. A text is a list of codes.
-- The socket is asyncio's.
use nd45_dtsu666_converter.Metrics.OneBridge.{render_bridge}
use nd45_dtsu666_converter.Metrics.Aliases.{render_primary_aliases}
use nd45_dtsu666_converter.Canonical.{store_age}
use nd45_dtsu666_converter.Metrics.{
  Out, shown, single, gauge, new_out, BridgeMetrics, digits, MetricsSource, Call, Line, seconds,
  whole, perform_calls,
}
use nd45_dtsu666_converter.Stats.{Heartbeat}
use nd45_dtsu666_converter.App.{slowest_age}
use nd45_dtsu666_converter.Clock.{Age, age_le, secs}
use nd45_dtsu666_converter.Base.Int.{sub_ℕ}
use Prim.Native.Char.{code}
use nd45_dtsu666_converter.Base.{
  err, ok, map, ◌++◌, ◌∷◌, [], List, some, none, Option, ◌||◌, ◌&&◌, not, false, true, Bool, String,
  ◌-◌, Result, length, Floats, if◌then◌else◌, eqb, leb, ℕ,
}

-- `String` has its own `[]` and `∷`.
abbrev pub codes : String → List ℕ
codes String.[] = []
codes (String.◌∷◌ c s) = code c ∷ codes s

-- `str.isspace` of a latin-1 character
unfoldable pub is_space : ℕ → Bool
is_space c = leb 9 c && leb c 13 || (leb 28 c && leb c 32 || (eqb c 133 || eqb c 160))

-- a character in front of the words that follow it
abbrev pub glue : ℕ → Bool → List (List ℕ) → List (List ℕ)
glue c true (w ∷ ws) = (c ∷ w) ∷ ws
glue c true [] = (c ∷ []) ∷ []
glue c false ws = (c ∷ []) ∷ ws

unfoldable pub begins_word : List ℕ → Bool
unfolding is_space
begins_word [] = false
begins_word (c ∷ _) = not (is_space c)

-- `line.split()`: the words between white space, which `strip` does not change
unfoldable pub split : List ℕ → List (List ℕ)
unfolding is_space
split [] = []
split (c ∷ cs) = let rest = split cs in if is_space c then rest else glue c (begins_word cs) rest

-- `upper`, at the letters that a comparison with "GET" can tell
unfoldable pub upper : ℕ → ℕ
upper c = if leb 97 c && leb c 122 then c - 32 else c

abbrev pub same_codes : List ℕ → List ℕ → Bool
same_codes [] [] = true
same_codes (a ∷ as_) (b ∷ bs) = eqb a b && same_codes as_ bs
same_codes _ _ = false

-- `target.split("?", 1)[0]`
abbrev pub before_query : List ℕ → List ℕ
before_query [] = []
before_query (c ∷ cs) = let rest = before_query cs in if eqb c 63 then [] else c ∷ rest

unfoldable pub target_of : List (List ℕ) → Option (List ℕ)
unfolding upper
target_of (method ∷ target ∷ _) =
    if same_codes (map upper method) (codes "GET") then some (before_query target) else none
target_of _ = none

-- `parse_request`, on the bytes of the request line: each byte is its own latin-1 character
unfoldable pub parse_request : List ℕ → Option (List ℕ)
unfolding split
parse_request head = target_of (split head)

-- A bridge's entry in the answer of /healthz: its name, its age, whether it is marked as stale.
pub record HealthPart : Type 0 where
  pub name : String
  pub age : Age
  pub stale : Bool

pub data Body (F : Type 0) : Type 0 where
  exposition_text : List (Line F) → Body F
  all_ok : List HealthPart → Body F
  some_stale : List String → List HealthPart → Body F
  index_page not_found : Body F

-- the names of `stale`
abbrev pub stale_names : List HealthPart → List String
stale_names [] = []
stale_names (p ∷ ps) = if p.stale then p.name ∷ stale_names ps else stale_names ps

module _ {F : Type 0} where
  -- the loop of /healthz
  unfoldable pub health_part : ℕ → BridgeMetrics F → HealthPart
  unfolding store_age
  health_part loop_now b =
      let age = store_age b.store loop_now in
      record { name = b.name; age = age; stale = not (age_le age b.spec.max_data_age) }

  abbrev pub health : List String → List HealthPart → ℕ × Body F
  health [] parts = (200, all_ok parts)
  health (s ∷ ss) parts = (503, some_stale (s ∷ ss) parts)

  -- the families of the process
  unfoldable pub process_calls : MetricsSource F → ℕ → List (Call F)
  process_calls source mono_now =
      single "build_info" gauge (whole 1) (
        ("version", shown source.version)
        ∷ ("mode", shown source.mode)
        ∷ ("bridges", digits (length source.bridges))
        ∷ [])
      ++ single "uptime_seconds" gauge (seconds (secs (sub_ℕ mono_now source.started_at))) []

  -- `if source.watchdog_heartbeat is not None`
  unfoldable pub watchdog_calls : Option (List Heartbeat) → ℕ → List (Call F)
  unfolding slowest_age
  watchdog_calls none mono_now = []
  watchdog_calls (some hs) mono_now =
      single "watchdog_heartbeat_age_seconds" gauge (seconds (slowest_age hs mono_now)) []

module _ {F : Type 0} ⦃fl : Floats F⦄ where
  unfoldable pub bridges_calls : MetricsSource F → List (BridgeMetrics F) → ℕ → ℕ → List (Call F)
  unfolding render_bridge
  bridges_calls source [] loop_now mono_now = []
  bridges_calls source (b ∷ bs) loop_now mono_now =
      render_bridge source b loop_now mono_now ++ bridges_calls source bs loop_now mono_now

  -- `if source.bridges`
  unfoldable pub primary_calls : MetricsSource F → List (BridgeMetrics F) → ℕ → ℕ → List (Call F)
  unfolding render_primary_aliases
  primary_calls source [] loop_now mono_now = []
  primary_calls source (b ∷ _) loop_now mono_now = render_primary_aliases source b loop_now mono_now

  -- the calls of `render`
  unfoldable pub render_calls : MetricsSource F → ℕ → ℕ → List (Call F)
  unfolding process_calls
  render_calls source loop_now mono_now =
      process_calls source mono_now
      ++ watchdog_calls source.watched mono_now
      ++ bridges_calls source source.bridges loop_now mono_now
      ++ primary_calls source source.bridges loop_now mono_now

  abbrev pub finished : Result (Out F) → Result (List (Line F))
  finished (ok out) = ok out.out_lines
  finished (err e) = err e

  unfoldable pub render : MetricsSource F → ℕ → ℕ → Result (List (Line F))
  unfolding render_calls perform_calls
  render source loop_now mono_now =
      finished (perform_calls new_out (render_calls source loop_now mono_now))

  -- `return 200, CONTENT_TYPE, …`
  abbrev pub exposition_answer : Result (List (Line F)) → Result (ℕ × Body F)
  exposition_answer (ok lines) = ok (200, exposition_text lines)
  exposition_answer (err e) = err e

  -- `route`: the status and the body
  unfoldable pub route : Option (List ℕ) → MetricsSource F → ℕ → ℕ → Result (ℕ × Body F)
  unfolding render
  route none source loop_now mono_now = ok (404, not_found)
  route (some path) source loop_now mono_now =
      let parts = map (health_part loop_now) source.bridges in
      if same_codes path (codes "/metrics")
      then exposition_answer (render source loop_now mono_now)
      else if same_codes path (codes "/healthz")
      then ok (health (stale_names parts) parts)
      else if same_codes path (codes "/")
      then ok (200, index_page)
      else ok (404, not_found)
