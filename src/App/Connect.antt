-- ===== src/App/Connect.antt =====
-- app.py: the waits of `connect_with_retry`.
use nd45_dtsu666_converter.App.{try_once, Connecting, min_of, Attempt, connect_with_retry}
use nd45_dtsu666_converter.Base.{
  err, ok, arith, ◌∷◌, [], List, false, true, Bool, refl, ◌≡◌, ◌≤◌, ◌*◌, Result, ℕ,
}

-- The waits that a backoff from `current` with a ceiling allows: each is the doubled one before it,
-- cut at the ceiling.
abbrev pub BacksOff : ℕ → ℕ → List ℕ → Type 0
BacksOff current max_delay [] = Unit
BacksOff current max_delay (w ∷ ws) =
    (w ≡ current) × (w ≤ max_delay) × BacksOff (min_of (current * 2) max_delay) max_delay ws

pub waits_back_off :
    (current max_delay : ℕ) (attempts : List Attempt)
    → current ≤ max_delay
    → BacksOff current max_delay (connect_with_retry current max_delay attempts).1
unfolding connect_with_retry
waits_back_off current max_delay [] h = tt
waits_back_off current max_delay (a ∷ rest) h =
    step a.stopped a.connected (connect_with_retry (min_of (current * 2) max_delay) max_delay rest)
      (waits_back_off (min_of (current * 2) max_delay) max_delay rest (ground arith))
  where
    step :
        (b : Bool) (c : Result Bool) (later : Connecting × List ℕ)
        → BacksOff (min_of (current * 2) max_delay) max_delay later.1
        → BacksOff current max_delay (try_once b c current later).1
    step true c later k = tt
    step false (err e) later k = tt
    step false (ok true) later k = tt
    step false (ok false) later k = (refl, h, k)
