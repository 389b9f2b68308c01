-- ===== src/Hub/Connection.antt =====
-- hub_client.py: `HubConnection`, the one stream behind the clients of a bridge. The stream task, the
-- reconnects and the calls of the bridge are steps that the event loop interleaves.
pub mod Reach
pub mod Delay
use nd45_dtsu666_converter.Base.{
  ◌∷◌, [], List, some, none, Option, ◌&&◌, not, false, true, Bool, ◌≡◌, String, ◌*◌, if◌then◌else◌,
  leb, ℕ, string_eq, nat_eq, ◌==◌, Eq,
}
use nd45_dtsu666_converter.Hub.{
  BlockCache, block_key_eq, BlockKey, new_cache, cache_update, set_stream_error,
}

-- The fields that change, with the backoff of `_run`, a local of the stream task. `running` tells
-- whether `_task` is set.
pub record Connection : Type 0 where
  pub blocks : List BlockKey
  pub cache : BlockCache
  pub running : Bool
  pub closed : Bool
  pub ready : Bool
  pub awaited : List BlockKey
  pub delay : ℕ

pub record Backoff : Type 0 where
  pub first : ℕ
  pub ceiling : ℕ

-- `HubConnection.__init__`; `set(blocks)` is the list with its repetitions, which `discard` removes
-- together
unfoldable pub new_connection : List BlockKey → ℕ → Connection
new_connection blocks max_stale = record {
  blocks = blocks;
  cache = new_cache max_stale;
  running = false;
  closed = false;
  ready = false;
  awaited = blocks;
  delay = 0;
}

-- `connected`
abbrev pub is_up : Option String → Bool
is_up none = true
is_up (some _) = false

unfoldable pub is_connected : Connection → Bool
is_connected c = is_up c.cache.stream_error

-- The first half of `connect`: the stream task is started, unless the connection is closed or it
-- runs; its backoff starts over.
unfoldable pub start_stream : Backoff → Connection → Connection
start_stream b c =
    if c.closed then c else if c.running then c else record c { running = true; delay = b.first }

-- The second half, once the wait is over: `waited` tells whether it ended before the timeout.
unfoldable pub connect_result : Connection → Bool → Bool
unfolding is_connected
connect_result c waited = not c.closed && (waited && is_connected c)

-- `close`
unfoldable pub close_connection : Connection → Connection
close_connection c = if c.closed then c else record c {
  closed = true;
  running = false;
  cache = set_stream_error c.cache (some "closed");
}

-- `self._awaited.discard(key)`
abbrev pub discard_key : BlockKey → List BlockKey → List BlockKey
discard_key key [] = []
discard_key key (k ∷ ks) = let rest = discard_key key ks in if key == k then rest else k ∷ rest

abbrev pub none_left : List BlockKey → Bool
none_left [] = true
none_left (_ ∷ _) = false

-- One message of the stream, received at `now`: the registers, or the error that is not empty.
pub record Message : Type 0 where
  pub key : BlockKey
  pub regs : List ℕ
  pub error : String

-- `if update.error: … else: …`
abbrev pub store_message : BlockCache → Message → ℕ → BlockCache
store_message c m now =
    if m.error == ""
    then cache_update c m.key (some m.regs) none now
    else cache_update c m.key none (some m.error) now

-- one round of the loop of `_stream_once`
unfoldable pub on_message : Connection → Message → ℕ → Connection
on_message c m now =
    let left = discard_key m.key c.awaited in
    record c {
      cache = set_stream_error (store_message c.cache m now) none;
      awaited = left;
      ready = if none_left left then true else c.ready;
    }

-- `except Exception` of `_run`: `_stream_once` never returns, since the end of the stream raises, so
-- every way out of it but a cancellation comes here.
unfoldable pub on_failure : Backoff → Connection → String → Connection
on_failure b c error = record c {
  cache = set_stream_error c.cache (some error);
  delay = if leb (c.delay * 2) b.ceiling then c.delay * 2 else b.ceiling;
}

-- What the event loop may do next. Messages and failures come from the stream task, so they need it.
pub data Step (b : Backoff) : Connection → Connection → Type 0 where
  starting : (c : Connection) → Step b c (start_stream b c)
  message :
      (c : Connection) (m : Message) (now : ℕ) → c.running ≡ true → Step b c (on_message c m now)
  failure : (c : Connection) (e : String) → c.running ≡ true → Step b c (on_failure b c e)
  closing : (c : Connection) → Step b c (close_connection c)

pub data Reaches (b : Backoff) (c : Connection) : Connection → Type 0 where
  here : Reaches b c c
  next : {d e : Connection} → Reaches b c d → Step b d e → Reaches b c e
