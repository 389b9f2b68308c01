-- ===== src/Watchdog/Pings.antt =====
-- watchdog.py: which turns of `watchdog_loop` ping systemd.
use nd45_dtsu666_converter.Watchdog.{
  watchdog_turn, watchdog_loop, WatchdogTurn, WatchdogCall, notify_watchdog, withholding_ping,
  wait_for_stop,
}
use nd45_dtsu666_converter.App.{slowest_age, slowest_from}
use nd45_dtsu666_converter.Clock.{Age, age_le, age_max, age_since, secs, inf}
use nd45_dtsu666_converter.Stats.{Heartbeat, heartbeat_age}
use nd45_dtsu666_converter.Base.Int.{pos, negsuc}
use nd45_dtsu666_converter.Base.{
  false, refl, Bool-cases, ℕ, List, [], ◌∷◌, true, All, arith, Option, some, none, inl, inr, ◌⊎◌,
  ◌≤◌, ◌≡◌, ◌+◌,
}

-- the times of the pings
abbrev pub pings : List WatchdogCall → List ℕ
pings [] = []
pings (notify_watchdog now ∷ cs) = now ∷ pings cs
pings (withholding_ping _ _ ∷ cs) = pings cs
pings (wait_for_stop _ ∷ cs) = pings cs

-- One of the heartbeats reads `last`.
abbrev pub Tracks : Option ℕ → List Heartbeat → Type 0
Tracks last [] = ⊥
Tracks last (h ∷ hs) = (h.last ≡ last) ⊎ Tracks last hs

-- `now` is at most `limit` after the progress made at `last`.
abbrev pub Within : ℕ → Option ℕ → ℕ → Type 0
Within limit none now = ⊥
Within limit (some t) now = now ≤ t + limit

age_le-age_max :
    (a b : Age) (limit : ℕ)
    → age_le (age_max a b) limit ≡ true
    → (age_le a limit ≡ true) × (age_le b limit ≡ true)
age_le-age_max (secs (pos x)) (secs (pos y)) limit h = ground arith
age_le-age_max (secs (pos x)) (secs (negsuc y)) limit h = ground arith
age_le-age_max (secs (negsuc x)) (secs (pos y)) limit h = ground arith
age_le-age_max (secs (negsuc x)) (secs (negsuc y)) limit h = ground arith
age_le-age_max inf b limit h = cc
age_le-age_max (secs a) inf limit h = cc

age_le-slowest_from :
    (a : Age) (hs : List Heartbeat) (now limit : ℕ)
    → age_le (slowest_from a hs now) limit ≡ true
    → (age_le a limit ≡ true) × All (λ h. age_le (heartbeat_age h now) limit ≡ true) hs
age_le-slowest_from a [] now limit p = (p, tt)
age_le-slowest_from a (h ∷ hs) now limit p =
    let rest = age_le-slowest_from (age_max a (heartbeat_age h now)) hs now limit p in
    let both = age_le-age_max a (heartbeat_age h now) limit rest.0 in (both.0, (both.1, rest.1))

age_le-slowest_age :
    (hs : List Heartbeat) (now limit : ℕ)
    → age_le (slowest_age hs now) limit ≡ true
    → All (λ h. age_le (heartbeat_age h now) limit ≡ true) hs
unfolding slowest_age
age_le-slowest_age [] now limit p = tt
age_le-slowest_age (h ∷ hs) now limit p = age_le-slowest_from (heartbeat_age h now) hs now limit p

age_since-Within :
    (last : Option ℕ) (now limit : ℕ)
    → age_le (age_since last now) limit ≡ true
    → Within limit last now
age_since-Within none now limit h = absurd (cc)
age_since-Within (some t) now limit h = ground arith

tracked-Within :
    (last : Option ℕ) (hs : List Heartbeat) (now limit : ℕ)
    → Tracks last hs
    → All (λ h. age_le (heartbeat_age h now) limit ≡ true) hs
    → Within limit last now
unfolding heartbeat_age
tracked-Within last [] now limit none-tracked p = absurd none-tracked
tracked-Within last (h ∷ hs) now limit (inl same) p =
    age_since-Within last now limit (rw same at p.0)
tracked-Within last (h ∷ hs) now limit (inr later) p = tracked-Within last hs now limit later p.1

-- While one poll loop makes no progress after `last`, every ping of the loop comes at most
-- `watchdog_sec` after it, and none comes if that loop has not made progress at all.
pub watchdog_loop_stalled :
    (watchdog_sec : ℕ) (last : Option ℕ) (turns : List WatchdogTurn)
    → All (λ t. Tracks last t.beats) turns
    → All (Within watchdog_sec last) (pings (watchdog_loop watchdog_sec turns))
unfolding watchdog_loop watchdog_turn
watchdog_loop_stalled sec last [] stuck = tt
watchdog_loop_stalled sec last (t ∷ ts) stuck =
    let later = watchdog_loop_stalled sec last ts stuck.1 in
    elim (Bool-cases t.stop_set) [
      | inl stopped ↦ ground arith
      | inr running ↦ elim (Bool-cases (age_le (slowest_age t.beats t.now) sec)) [
        | inl timely ↦
            let within =
              tracked-Within last t.beats t.now sec stuck.0
                (age_le-slowest_age t.beats t.now sec timely) in
            ground arith
        | inr stale ↦ ground arith
      ]
    ]

age_max-age_le :
    (a b : Age) (limit : ℕ)
    → age_le a limit ≡ true
    → age_le b limit ≡ true
    → age_le (age_max a b) limit ≡ true
age_max-age_le (secs (pos x)) (secs (pos y)) limit h k = ground arith
age_max-age_le (secs (pos x)) (secs (negsuc y)) limit h k = ground arith
age_max-age_le (secs (negsuc x)) (secs (pos y)) limit h k = ground arith
age_max-age_le (secs (negsuc x)) (secs (negsuc y)) limit h k = ground arith
age_max-age_le inf b limit h k = cc
age_max-age_le (secs a) inf limit h k = cc

Within-age_since :
    (last : Option ℕ) (now limit : ℕ)
    → Within limit last now
    → age_le (age_since last now) limit ≡ true
Within-age_since none now limit h = absurd h
Within-age_since (some t) now limit h = ground arith

slowest_from-age_le :
    (a : Age) (hs : List Heartbeat) (now limit : ℕ)
    → age_le a limit ≡ true
    → All (λ h. Within limit h.last now) hs
    → age_le (slowest_from a hs now) limit ≡ true
unfolding heartbeat_age
slowest_from-age_le a [] now limit p timely = p
slowest_from-age_le a (h ∷ hs) now limit p timely =
    slowest_from-age_le (age_max a (heartbeat_age h now)) hs now limit
      (age_max-age_le a (heartbeat_age h now) limit p (Within-age_since h.last now limit timely.0))
      timely.1

-- There is a heartbeat, and every one has made progress at most `limit` before `now`.
abbrev pub AllWithin : ℕ → ℕ → List Heartbeat → Type 0
AllWithin limit now [] = ⊥
AllWithin limit now (h ∷ hs) = Within limit h.last now × All (λ b. Within limit b.last now) hs

slowest_age-age_le :
    (hs : List Heartbeat) (now limit : ℕ)
    → AllWithin limit now hs
    → age_le (slowest_age hs now) limit ≡ true
unfolding slowest_age heartbeat_age
slowest_age-age_le [] now limit none_tracked = absurd none_tracked
slowest_age-age_le (h ∷ hs) now limit timely =
    slowest_from-age_le (heartbeat_age h now) hs now limit
      (Within-age_since h.last now limit timely.0) timely.1

abbrev pub times : List WatchdogTurn → List ℕ
times [] = []
times (t ∷ ts) = t.now ∷ times ts

-- While the stop event is not set and every poll loop makes progress within `watchdog_sec`, the loop
-- pings in each of its turns, if it tracks a poll loop at all.
pub watchdog_loop_healthy :
    (watchdog_sec : ℕ) (turns : List WatchdogTurn)
    → All (λ t. (t.stop_set ≡ false) × AllWithin watchdog_sec t.now t.beats) turns
    → pings (watchdog_loop watchdog_sec turns) ≡ times turns
unfolding watchdog_loop watchdog_turn
watchdog_loop_healthy sec [] healthy = refl
watchdog_loop_healthy sec (t ∷ ts) healthy =
    let later = watchdog_loop_healthy sec ts healthy.1 in
    let timely = slowest_age-age_le t.beats t.now sec healthy.0.1 in
    let running = healthy.0.0 in ground arith
