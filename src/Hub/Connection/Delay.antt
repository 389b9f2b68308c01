-- ===== src/Hub/Connection/Delay.antt =====
-- hub_client.py: the backoff of the stream task, `delay` of `_run`.
use nd45_dtsu666_converter.Hub.Connection.{
  failure, message, on_failure, starting, close_connection, Step, next, new_connection, Connection,
  closing, start_stream, Backoff, Reaches, on_message, here,
}
use nd45_dtsu666_converter.Hub.{BlockKey}
use nd45_dtsu666_converter.Base.{arith, List, false, true, Bool, refl, ◌≡◌, ◌≤◌, if◌then◌else◌, ℕ}

-- While the task runs, its wait lies between the first one and the ceiling.
abbrev IsBounded : Backoff → Connection → Type 0
IsBounded b c = c.running ≡ true → (b.first ≤ c.delay) × (c.delay ≤ b.ceiling)

IsBounded-if :
    (b : Backoff) (t : Bool) (c d : Connection)
    → IsBounded b c
    → (t ≡ false → IsBounded b d)
    → IsBounded b (if t then c else d)
IsBounded-if b true c d h k = h
IsBounded-if b false c d h k = k refl

start_stream-IsBounded :
    (b : Backoff) (c : Connection)
    → b.first ≤ b.ceiling
    → IsBounded b c
    → IsBounded b (start_stream b c)
unfolding start_stream
start_stream-IsBounded b c fits h =
    IsBounded-if b c.closed c _ h
      λ open_. IsBounded-if b c.running c _ h λ idle. λ _. (ground arith, fits)

close_connection-IsBounded :
    (b : Backoff) (c : Connection) → IsBounded b c → IsBounded b (close_connection c)
unfolding close_connection
close_connection-IsBounded b c h = IsBounded-if b c.closed c _ h λ open_. λ run. absurd (cc)

Step-IsBounded :
    {b : Backoff} {c d : Connection}
    → b.first ≤ b.ceiling
    → Step b c d
    → IsBounded b c
    → IsBounded b d
unfolding on_message on_failure
Step-IsBounded {b} fits (starting c) h = start_stream-IsBounded b c fits h
Step-IsBounded fits (message c m now running) h = h
Step-IsBounded {b} fits (failure c e running) h =
    λ run. let (low, high) = h running in (ground arith, ground arith)
Step-IsBounded {b} fits (closing c) h = close_connection-IsBounded b c h

Reaches-IsBounded :
    {b : Backoff} (blocks : List BlockKey) (max_stale : ℕ) {c : Connection}
    → b.first ≤ b.ceiling
    → Reaches b (new_connection blocks max_stale) c
    → IsBounded b c
unfolding new_connection
Reaches-IsBounded blocks max_stale fits here = λ run. absurd (cc)
Reaches-IsBounded blocks max_stale fits (next r s) =
    Step-IsBounded fits s (Reaches-IsBounded blocks max_stale fits r)

delay-if :
    (n : ℕ) (t : Bool) (c d : Connection)
    → n ≤ c.delay
    → (t ≡ false → n ≤ d.delay)
    → n ≤ (if t then c else d).delay
delay-if n true c d h k = h
delay-if n false c d h k = k refl

Step-grows :
    {b : Backoff} {c d : Connection}
    → IsBounded b c
    → c.running ≡ true
    → Step b c d
    → c.delay ≤ d.delay
unfolding start_stream close_connection on_message on_failure
Step-grows h run (starting c) =
    delay-if c.delay c.closed c _ (omega arith)
      λ _. delay-if c.delay c.running c _ (omega arith) λ idle. absurd (ground arith)
Step-grows h run (message c m now running) = omega arith
Step-grows h run (failure c e running) = let (low, high) = h running in ground arith
Step-grows h run (closing c) = delay-if c.delay c.closed c _ (omega arith) λ _. omega arith

-- With a first delay within the ceiling, nothing that happens to a running stream task lowers its
-- wait before the next attempt, messages that arrive included, and the wait stays between the first
-- delay and the ceiling.
pub Reaches-delay :
    {b : Backoff} (blocks : List BlockKey) (max_stale : ℕ) {c d : Connection}
    → b.first ≤ b.ceiling
    → Reaches b (new_connection blocks max_stale) c
    → Step b c d
    → c.running ≡ true
    → (b.first ≤ c.delay) × (c.delay ≤ b.ceiling) × (c.delay ≤ d.delay)
Reaches-delay blocks max_stale fits r s run =
    let reached = Reaches-IsBounded blocks max_stale fits r in
    ((reached run).0, (reached run).1, Step-grows reached run s)
