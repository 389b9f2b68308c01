-- ===== src/Hub/Setup.antt =====
-- hub_client.py: `make_hub_client`. The clients of one bridge are views of one connection; what only
-- names the socket, the client and the hosts is left out.
use nd45_dtsu666_converter.Server.Encode.{is_empty}
use nd45_dtsu666_converter.Metrics.{single}
use nd45_dtsu666_converter.Base.Int.{ℤ}
use nd45_dtsu666_converter.Hub.Connection.{new_connection, Connection}
use nd45_dtsu666_converter.Registers.{SourceSide, ReadGroup, or_empty}
use nd45_dtsu666_converter.Pollers.{require_groups}
use nd45_dtsu666_converter.Hub.{
  SourceType, nd45, fc_input, declared_blocks, fc_holding, etango, huawei, some_blocks, BlockKey,
  staleness_threshold, blocks_for_source,
}
use nd45_dtsu666_converter.Base.{
  ◌&&◌, not, inr, inl, ◌∙◌, ap, sym, Bool-cases, raise_if-ok, bind-ok, value_error, ok, arith, ◌++◌,
  ◌∷◌, [], List, some, none, Option, false, true, Bool, refl, ◌≡◌, String, Result, raise_if, ◌>>◌,
  ◌>>=◌, any, string_eq, nat_eq, ◌==◌, if◌then◌else◌, ℕ,
}
use nd45_dtsu666_converter.Settings.{
  check_source, check_stall_timeout, check_hub_link_present, check_devices, check_links,
  EtangoDeviceConf, has_devices, SourceConf,
}

-- `HubClient`, and `DeviceLink` over one
pub record HubView : Type 0 where
  pub link : String
  pub unit_id : ℕ
  pub aggregate : Bool

abbrev pub device_views : List EtangoDeviceConf → List HubView
device_views [] = []
device_views (d ∷ ds) =
    record { link = d.hub_link; unit_id = d.unit_id; aggregate = d.aggregate } ∷ device_views ds

module _ {F : Type 0} where
  -- the loop over `source.devices`
  unfoldable pub device_blocks : SourceSide F → List EtangoDeviceConf → Result (List BlockKey)
  unfolding blocks_for_source
  device_blocks side [] = ok []
  device_blocks side (d ∷ ds) = do
    raise_if (d.hub_link == "") value_error
    blocks ← blocks_for_source etango side d.unit_id d.hub_link
    more ← device_blocks side ds
    ok (blocks ++ more)

  -- the branch of a single host
  unfoldable pub single_client : SourceConf → SourceSide F → Result (List BlockKey × List HubView)
  unfolding blocks_for_source
  single_client s side = do
    raise_if (s.hub_link == "") value_error
    blocks ← blocks_for_source s.source_type side s.unit_id s.hub_link
    ok (blocks, record { link = s.hub_link; unit_id = s.unit_id; aggregate = true } ∷ [])

  -- the branch of an `EtangoSourceConf`
  unfoldable pub multi_client : SourceConf → SourceSide F → Result (List BlockKey × List HubView)
  unfolding device_blocks
  multi_client s side = do
    blocks ← device_blocks side s.devices
    ok (blocks, device_views s.devices)

  unfoldable pub make_hub_client : SourceConf → SourceSide F → Result (Connection × List HubView)
  unfolding single_client multi_client staleness_threshold new_connection
  make_hub_client s side = do
    made ← if has_devices s.source_type then multi_client s side else single_client s side
    ok (new_connection made.0 (staleness_threshold s.poll_interval s.timeout), made.1)

-- The map section declares its blocks, or the poller has its own.
abbrev pub Declares : {F : Type 0} → SourceType → SourceSide F → Type 0
Declares nd45 side = Unit
Declares _ side = require_groups side.read_groups ≡ ok tt

-- What `check_source` says of a source that is read through the hub.
linked_devices :
    (ds : List EtangoDeviceConf) {u : Unit {0}}
    → check_links true ds ≡ ok u
    → any (λ d. d.hub_link == "") ds ≡ false
linked_devices ds h =
    let (_, first, _) = bind-ok (raise_if (any (λ d. d.hub_link == "") ds) value_error) _ h in
    raise_if-ok (any (λ d. d.hub_link == "") ds) value_error first

made-connected :
    (r : Result (List BlockKey × List HubView)) (max_stale : ℕ)
    → (made : List BlockKey × List HubView) × (r ≡ ok made)
    → (client : Connection × List HubView) × ((r >>= λ made.
          ok (new_connection made.0 max_stale, made.1))
        ≡ ok client)
made-connected r max_stale (made, e) = ((new_connection made.0 max_stale, made.1), rw e refl)

some_declared :
    (link : String) (unit_id fc : ℕ) (offset : ℤ) (gs : Option (List ReadGroup))
    → require_groups gs ≡ ok tt
    → (blocks : List BlockKey) × (some_blocks (declared_blocks link unit_id fc offset (or_empty gs))
        ≡ ok blocks)
some_declared link unit_id fc offset none h = absurd (cc)
some_declared link unit_id fc offset (some []) h = absurd (cc)
some_declared link unit_id fc offset (some (g ∷ gs)) h = (_, refl)

module _ {F : Type 0} where
  blocks_for_source-ok :
      (type_ : SourceType) (side : SourceSide F) (unit_id : ℕ) (link : String)
      → Declares type_ side
      → (blocks : List BlockKey) × (blocks_for_source type_ side unit_id link ≡ ok blocks)
  unfolding blocks_for_source
  blocks_for_source-ok nd45 side unit_id link h = (_, refl)
  blocks_for_source-ok huawei side unit_id link h =
      some_declared link unit_id fc_holding side.address_offset side.read_groups h
  blocks_for_source-ok etango side unit_id link h =
      some_declared link unit_id fc_input side.address_offset side.read_groups h

  device_blocks-ok :
      (side : SourceSide F) (ds : List EtangoDeviceConf)
      → require_groups side.read_groups ≡ ok tt
      → any (λ d. d.hub_link == "") ds ≡ false
      → (blocks : List BlockKey) × (device_blocks side ds ≡ ok blocks)
  unfolding device_blocks
  device_blocks-ok side [] h named_ = ([], refl)
  device_blocks-ok side (d ∷ ds) h named_ =
      let (own, first) = blocks_for_source-ok etango side d.unit_id d.hub_link h in
      let (more, rest) = device_blocks-ok side ds h (ground arith) in
      let linked : (d.hub_link == "") ≡ false = ground arith in
      (own ++ more, rw linked (rw first (rw rest refl)))

  single_client-ok :
      (s : SourceConf) (side : SourceSide F)
      → (s.hub_link == "") ≡ false
      → Declares s.source_type side
      → (made : List BlockKey × List HubView) × (single_client s side ≡ ok made)
  unfolding single_client
  single_client-ok s side linked h =
      let (blocks, e) = blocks_for_source-ok s.source_type side s.unit_id s.hub_link h in
      let view : HubView = record { link = s.hub_link; unit_id = s.unit_id; aggregate = true } in
      ((blocks, view ∷ []), rw linked (rw e refl))

  multi_client-ok :
      (s : SourceConf) (side : SourceSide F)
      → check_links true s.devices ≡ ok tt
      → require_groups side.read_groups ≡ ok tt
      → (made : List BlockKey × List HubView) × (multi_client s side ≡ ok made)
  unfolding multi_client
  multi_client-ok s side linked h =
      let (blocks, e) = device_blocks-ok side s.devices h (linked_devices s.devices linked) in
      ((blocks, device_views s.devices), rw e refl)

  needs_groups :
      (type_ : SourceType) (side : SourceSide F)
      → has_devices type_ ≡ true
      → Declares type_ side
      → require_groups side.read_groups ≡ ok tt
  needs_groups nd45 side d h = absurd (cc)
  needs_groups huawei side d h = absurd (cc)
  needs_groups etango side d h = h

  -- A source whose settings are accepted and that is read through modbus-hub gets its client, if its
  -- section of the register map declares its blocks.
  pub make_hub_client-ok :
      (s : SourceConf) (side : SourceSide F)
      → check_source s ≡ ok tt
      → s.via_hub ≡ true
      → Declares s.source_type side
      → (client : Connection × List HubView) × (make_hub_client s side ≡ ok client)
  unfolding make_hub_client check_source check_hub_link_present check_devices
  make_hub_client-ok s side checked_ via h = elim (Bool-cases (has_devices s.source_type)) [
    | inl several ↦
        let (_, _, rest) = bind-ok (check_hub_link_present s) _ checked_ in
        let (_, _, rest) = bind-ok (check_stall_timeout s) _ rest in
        let devices : check_devices s ≡ ok tt = rw several at rest in
        let (_, _, rest) = bind-ok (raise_if (is_empty s.devices) value_error) _ devices in
        let (_, _, links) =
          bind-ok (raise_if (not (any (λ d. d.aggregate) s.devices)) value_error) _ rest in
        let linked : check_links true s.devices ≡ ok tt =
          ap (λ v. check_links v s.devices) (sym via) ∙ links in
        rw several (
          made-connected (multi_client s side) (staleness_threshold s.poll_interval s.timeout)
            (multi_client-ok s side linked (needs_groups s.source_type side several h)))
    | inr single ↦
        let (_, present, rest) = bind-ok (check_hub_link_present s) _ checked_ in
        let missing =
          raise_if-ok (s.via_hub && (s.hub_link == "" && not (has_devices s.source_type)))
            value_error present in
        let linked : (s.hub_link == "") ≡ false = ground (arith, missing, via, single) in
        rw single (
          made-connected (single_client s side) (staleness_threshold s.poll_interval s.timeout)
            (single_client-ok s side linked h))
  ]
