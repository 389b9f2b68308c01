-- ===== src/Settings/Select.antt =====
-- config.py, diagnostics.py and app.py: the names of the bridges in an accepted configuration.
use nd45_dtsu666_converter.Bridges.{
  check_freshness_threshold, check_per_bridge_metrics_ports, check_output_transports,
  check_metrics_port_free,
}
use nd45_dtsu666_converter.Server.Encode.{is_empty}
use nd45_dtsu666_converter.Settings.{
  check_enabled_is_usable, check_transport_config, BridgeEntry, has_repeats, check_source,
}
use mathlib.Core.Path.{subst}
use nd45_dtsu666_converter.Settings.Load.{
  spec_of, check_first_freshness, check_at_least_one_bridge, check_bridge_names_unique,
  select_bridge, some_or_exit, select_specs, load_config, bridge_specs, named_or_exit, named,
  legacy_entry, legacy_from, enabled_only, legacy_bridge, LegacyOutput, Nd45Conf, checked_entry,
  check_legacy_output, primary_bridge_name, AppConfig, entry_names,
}
use nd45_dtsu666_converter.Base.{
  raise_if-ok, bind-ok, value_error, map, raise_if, map_ok, ◌∙◌, ◌==◌, ok, arith, ◌++◌, ◌∷◌, [],
  List, some, none, Option, ◌&&◌, not, false, true, inr, inl, ap, sym, refl, ◌≡◌, String, mem,
  Bool-cases, string_eq, nat_eq,
}

-- Names that stand once stand once among the enabled bridges.
mem-enabled :
    (n : String) (bs : List BridgeEntry)
    → mem n (entry_names bs) ≡ false
    → mem n (entry_names (enabled_only bs)) ≡ false
mem-enabled n [] h = refl
mem-enabled n (b ∷ bs) h = elim (Bool-cases b.enabled) [
  | inl on ↦ rw on (ground (arith, mem-enabled n bs))
  | inr off ↦ rw off (mem-enabled n bs (ground arith))
]

has_repeats-enabled :
    (bs : List BridgeEntry)
    → has_repeats (entry_names bs) ≡ false
    → has_repeats (entry_names (enabled_only bs)) ≡ false
has_repeats-enabled [] h = refl
has_repeats-enabled (b ∷ bs) h = elim (Bool-cases b.enabled) [
  | inl on ↦ rw on (ground (arith, mem-enabled b.name bs, has_repeats-enabled bs))
  | inr off ↦ rw off (has_repeats-enabled bs (ground arith))
]

-- What the legacy settings give: nothing, or one bridge under the reserved name.
abbrev IsLegacy : List BridgeEntry → Type 0
IsLegacy [] = Unit
IsLegacy (b ∷ []) = b.name ≡ primary_bridge_name
IsLegacy (_ ∷ _ ∷ _) = false ≡ true

checked_entry-same : (b : BridgeEntry) {c : BridgeEntry} → checked_entry b ≡ ok c → b ≡ c
unfolding checked_entry
checked_entry-same b h =
    let (_, _, h) = bind-ok (check_source b.source) _ h in
    let (_, _, h) = bind-ok (check_transport_config b.transport b.serial_port b.tcp_bind) _ h in
    let (_, _, h) = bind-ok (check_enabled_is_usable b) _ h in cc

legacy_bridge-IsLegacy :
    (config : AppConfig) {legacy : List BridgeEntry}
    → legacy_bridge config ≡ ok legacy
    → IsLegacy legacy
unfolding legacy_bridge legacy_from
legacy_bridge-IsLegacy config h = go config.nd45_ config.dtsu h
  where
    go :
        (n : Option Nd45Conf) (out : Option LegacyOutput) {legacy : List BridgeEntry}
        → legacy_from config n out ≡ ok legacy
        → IsLegacy legacy
    go (some n) (some out) {legacy} h =
        let (b, made, rest) =
          bind-ok (checked_entry (legacy_entry config n out)) (λ b. ok (b ∷ [])) h in
        let same : legacy_entry config n out ≡ b =
          checked_entry-same (legacy_entry config n out) made in
        let one : b ∷ [] ≡ legacy = cc in subst IsLegacy one (ap (λ e. e.name) (sym same))
    go none out {legacy} h = let nil : [] ≡ legacy = cc in subst IsLegacy nil tt
    go (some n) none {legacy} h = let nil : [] ≡ legacy = cc in subst IsLegacy nil tt

-- No name stands twice among the bridges of an accepted configuration.
joined_names :
    (legacy bs : List BridgeEntry)
    → IsLegacy legacy
    → (not (is_empty legacy) && mem primary_bridge_name (entry_names bs)) ≡ false
    → has_repeats (entry_names bs) ≡ false
    → has_repeats (entry_names (legacy ++ enabled_only bs)) ≡ false
joined_names [] bs one reserved h = has_repeats-enabled bs h
joined_names (b ∷ []) bs one reserved h =
    let free : mem b.name (entry_names bs) ≡ false =
      ap (λ n. mem n (entry_names bs)) one ∙ reserved in
    let apart : mem b.name (entry_names (enabled_only bs)) ≡ false = mem-enabled b.name bs free in
    rw apart (has_repeats-enabled bs h)
joined_names (_ ∷ _ ∷ _) bs one reserved h = absurd (cc)

module _ (b : BridgeEntry) (after : List BridgeEntry) where
  named-none :
      (n : String) (bs : List BridgeEntry) → mem n (entry_names bs) ≡ false → named n bs ≡ []
  named-none n [] h = refl
  named-none n (c ∷ cs) h =
      ground (arith, string_eq.beq_iff c.name n, string_eq.beq_iff n c.name, named-none n cs)

  mem-later : (before : List BridgeEntry) → mem b.name (entry_names (before ++ b ∷ after)) ≡ true
  mem-later [] = ground (arith, string_eq.beq_iff b.name b.name)
  mem-later (c ∷ cs) = ground (arith, mem-later cs)

  picked :
      (before : List BridgeEntry)
      → has_repeats (entry_names (before ++ b ∷ after)) ≡ false
      → (named_or_exit b.name (before ++ b ∷ after) ≡ ok b)
        × (named b.name (before ++ b ∷ after) ≡ b ∷ [])
  picked [] h =
      let same : (b.name == b.name) ≡ true = (string_eq.beq_iff b.name b.name).1 refl in
      (rw same refl, rw same (ap (λ bs. b ∷ bs) (named-none b.name after (ground arith))))
  picked (c ∷ cs) h =
      let other : (c.name == b.name) ≡ false =
        ground (arith, string_eq.beq_iff c.name b.name, mem-later cs) in
      let (one, all_) = picked cs (ground arith) in (rw other one, rw other all_)

check_names-ok :
    (config : AppConfig) (legacy : List BridgeEntry) {u : Unit {0}}
    → check_bridge_names_unique config legacy ≡ ok u
    → ((not (is_empty legacy) && mem primary_bridge_name (entry_names config.bridges)) ≡ false)
      × (has_repeats (entry_names config.bridges) ≡ false)
unfolding check_bridge_names_unique
check_names-ok config legacy h =
    let reserved = not (is_empty legacy) && mem primary_bridge_name (entry_names config.bridges) in
    let (_, first, second) = bind-ok (raise_if reserved value_error) _ h in
    (
      raise_if-ok reserved value_error first,
      raise_if-ok (has_repeats (entry_names config.bridges)) value_error second,
    )

-- What an accepted configuration has passed, as far as its names go.
load_config-passed :
    (config : AppConfig) {specs : List BridgeEntry}
    → load_config config ≡ ok specs
    → (legacy : List BridgeEntry) × (legacy_bridge config ≡ ok legacy)
      × (legacy ++ enabled_only config.bridges ≡ specs)
      × (check_bridge_names_unique config legacy ≡ ok tt)
unfolding load_config bridge_specs
load_config-passed config {specs} h =
    let (_, _, h) = bind-ok (map_ok checked_entry config.bridges) _ h in
    let (_, _, h) = bind-ok (check_legacy_output config.dtsu) _ h in
    let (found, made, h) = bind-ok (bridge_specs config) _ h in
    let (legacy, old, h) = bind-ok (legacy_bridge config) _ h in
    let (_, _, h) = bind-ok (check_at_least_one_bridge config found) _ h in
    let (_, _, h) = bind-ok (check_first_freshness config.feed_interval found) _ h in
    let (_, unique, h) = bind-ok (check_bridge_names_unique config legacy) _ h in
    let (_, _, h) = bind-ok (check_output_transports (map spec_of found)) _ h in
    let (_, _, h) = bind-ok (check_metrics_port_free config.prometheus (map spec_of found)) _ h in
    let (_, _, h) =
      bind-ok (check_per_bridge_metrics_ports config.prometheus (map spec_of found)) _ h in
    let (_, _, h) = bind-ok (check_freshness_threshold (map spec_of found)) _ h in
    let (again, same, joined) = bind-ok (legacy_bridge config) _ made in
    let one : again ≡ legacy = cc in (legacy, old, cc, unique)

-- No name stands twice in an accepted configuration.
load_config-names :
    (config : AppConfig) {specs : List BridgeEntry}
    → load_config config ≡ ok specs
    → has_repeats (entry_names specs) ≡ false
load_config-names config h =
    let (legacy, old, joined, unique) = load_config-passed config h in
    let (reserved, once) = check_names-ok config legacy unique in
    ap (λ bs. has_repeats (entry_names bs)) (sym joined)
    ∙ joined_names legacy config.bridges (legacy_bridge-IsLegacy config old) reserved once

-- In a configuration that is accepted, each enabled bridge can be picked by its name: the tools that
-- take one bridge get it, and a process that is told to run only that bridge runs it and no other.
pub load_config-select :
    (config : AppConfig) (before : List BridgeEntry) (b : BridgeEntry) (after : List BridgeEntry)
    → load_config config ≡ ok (before ++ b ∷ after)
    → (select_bridge (before ++ b ∷ after) (some b.name) ≡ ok b)
      × (select_specs (before ++ b ∷ after) (some b.name) ≡ ok (b ∷ []))
unfolding select_bridge select_specs
load_config-select config before b after h =
    let (one, all_) = picked b after before (load_config-names config h) in
    (one, ap some_or_exit all_)
