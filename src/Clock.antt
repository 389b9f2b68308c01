-- ===== src/Clock.antt =====
-- Times and ages. A clock reading (`time.monotonic()`, `loop.time()`) and a configured duration are
-- natural numbers of one tick, fine enough for every float that the code compares; an age is a
-- difference of two readings, so it has a sign, or it is `math.inf` before the first reading.
use nd45_dtsu666_converter.Base.Int.{ℤ, leb_ℤ, sub_ℕ, pos_part}
use nd45_dtsu666_converter.Base.{some, none, Option, false, Bool, if◌then◌else◌, leb, ℕ}

pub data Age : Type 0 where
  secs : ℤ → Age
  inf : Age

-- `inf if last is None else now - last`
abbrev pub age_since : Option ℕ → ℕ → Age
age_since none now = inf
age_since (some ts) now = secs (sub_ℕ now ts)

-- `age <= limit`, at a limit of zero or more
abbrev pub age_le : Age → ℕ → Bool
age_le (secs z) limit = leb (pos_part z) limit
age_le inf limit = false

-- `max(a, b)` of two ages
abbrev pub age_max : Age → Age → Age
age_max (secs a) (secs b) = if leb_ℤ a b then secs b else secs a
age_max inf b = inf
age_max (secs a) inf = inf
