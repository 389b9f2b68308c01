-- ===== src/Metrics/Health.antt =====
-- metrics.py: what /healthz answers.
use nd45_dtsu666_converter.Metrics.Endpoint.{
  HealthPart, all_ok, codes, some_stale, health_part, health, route, stale_names,
}
use nd45_dtsu666_converter.Canonical.{should_serve, store_age}
use nd45_dtsu666_converter.Metrics.{MetricsSource, BridgeMetrics}
use nd45_dtsu666_converter.Base.{
  ok, arith, map, ◌∷◌, [], List, some, true, ◌↔◌, ◌≢◌, refl, ◌≡◌, String, All, Floats, ℕ,
}

module _ {F : Type 0} where
  -- The gate of the bridge's output server would serve.
  abbrev pub IsServing : ℕ → BridgeMetrics F → Type 0
  IsServing loop_now b = should_serve b.spec.max_data_age (store_age b.store loop_now) ≡ true

  stale_names-nil :
      (loop_now : ℕ) (bs : List (BridgeMetrics F))
      → (stale_names (map (health_part loop_now) bs) ≡ []) ↔ All (IsServing loop_now) bs
  unfolding health_part should_serve
  stale_names-nil loop_now [] = (λ h. tt, λ h. refl)
  stale_names-nil loop_now (b ∷ bs) = (
    λ h. (ground arith, (stale_names-nil loop_now bs).0 (ground arith)),
    λ h. rw (h.0) ((stale_names-nil loop_now bs).1 h.1),
  )

  health_ok :
      (names : List String) (parts : List HealthPart)
      → (ok (health {F = F} names parts) ≡ ok (200, all_ok parts)) ↔ (names ≡ [])
  health_ok [] parts = (λ h. refl, λ h. refl)
  health_ok (n ∷ ns) parts = (λ h. absurd (cc), λ h. absurd (cc))

  health_unavailable :
      (names : List String) (parts : List HealthPart)
      → (ok (health {F = F} names parts) ≡ ok (503, some_stale names parts)) ↔ (names ≢ [])
  health_unavailable [] parts = (λ h. absurd (cc), λ h. absurd (h refl))
  health_unavailable (n ∷ ns) parts = (λ h e. absurd (cc), λ h. refl)

module _ {F : Type 0} ⦃fl : Floats F⦄ where
  pub route_healthz :
      (source : MetricsSource F) (loop_now mono_now : ℕ)
      → let parts = map (health_part loop_now) source.bridges in
        let answer = route (some (codes "/healthz")) source loop_now mono_now in
        ((answer ≡ ok (200, all_ok parts)) ↔ All (IsServing loop_now) source.bridges)
        × ((answer ≡ ok (503, some_stale (stale_names parts) parts))
            ↔ (¬ All (IsServing loop_now) source.bridges))
  unfolding route
  route_healthz source loop_now mono_now =
      let parts = map (health_part loop_now) source.bridges in
      let (a, b) = health_ok (stale_names parts) parts in
      let (c, d) = health_unavailable (stale_names parts) parts in
      let (e, f) = stale_names-nil loop_now source.bridges in
      ((λ h. e (a h), λ h. b (f h)), (λ h all. c h (f all), λ h. d (λ nil. h (e nil))))
