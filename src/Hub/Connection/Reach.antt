-- ===== src/Hub/Connection/Reach.antt =====
-- hub_client.py: what holds of a connection in every state that the event loop can reach.
use nd45_dtsu666_converter.Base.{
  Bool, if◌then◌else◌, mem_self, arith, ◌∷◌, [], List, some, none, ◌||◌, false, true, inr, inl, ap,
  refl, ◌≡◌, String, contains-insert_eq, contains, mem, All-imp, All, Bool-cases, ℕ, string_eq,
  nat_eq, ◌==◌,
}
use nd45_dtsu666_converter.Hub.{
  entry_of, BlockCache, block_key_eq, BlockKey, new_cache, cache_update, set_stream_error,
}
use nd45_dtsu666_converter.Hub.Connection.{
  here, Connection, Reaches, Message, discard_key, starting, next, closing, none_left, is_up, Step,
  store_message, Backoff, start_stream, close_connection, on_message, on_failure, new_connection,
  message, failure,
}

-- A closed connection has no task and a stream error; every block is awaited or has an entry; and
-- readiness means that none is awaited.
pub record IsConsistent (c : Connection) : Type 0 where
  pub stopped : c.closed ≡ true → (c.running ≡ false) × (is_up c.cache.stream_error ≡ false)
  pub known : All (λ k. (mem k c.awaited || contains k c.cache.entries) ≡ true) c.blocks
  pub complete : c.ready ≡ true → c.awaited ≡ []

discard_key-mem :
    (k key : BlockKey) (ks : List BlockKey)
    → mem k ks ≡ true
    → (mem k (discard_key key ks) || k == key) ≡ true
discard_key-mem k key [] h = cc
discard_key-mem k key (j ∷ js) h = ground (
  arith,
  block_key_eq.beq_iff key j,
  block_key_eq.beq_iff k j,
  block_key_eq.beq_iff k key,
  discard_key-mem k key js,
)

none_left-nil : (ks : List BlockKey) → none_left ks ≡ true → ks ≡ []
none_left-nil [] h = refl
none_left-nil (_ ∷ _) h = absurd (cc)

-- A message makes an entry for its block, and keeps the others.
store_message-contains :
    (k : BlockKey) (c : BlockCache) (m : Message) (now : ℕ)
    → contains k (store_message c m now).entries ≡ (k == m.key || contains k c.entries)
unfolding cache_update
store_message-contains k c m now = by_error (m.error == "")
  where
    by_error :
        (fine : Bool)
        → contains k
            (if fine
              then cache_update c m.key (some m.regs) none now
              else cache_update c m.key none (some m.error) now).entries
          ≡ (k == m.key || contains k c.entries)
    by_error true = contains-insert_eq k m.key (entry_of (some m.regs) none now) c.entries
    by_error false = contains-insert_eq k m.key (entry_of none (some m.error) now) c.entries

IsConsistent-if :
    (t : Bool) (c d : Connection)
    → IsConsistent c
    → (t ≡ false → IsConsistent d)
    → IsConsistent (if t then c else d)
IsConsistent-if true c d h k = h
IsConsistent-if false c d h k = k refl

start_stream-IsConsistent :
    (b : Backoff) (c : Connection) → IsConsistent c → IsConsistent (start_stream b c)
unfolding start_stream
start_stream-IsConsistent b c h = IsConsistent-if c.closed c _ h λ open_.
    IsConsistent-if c.running c _ h λ idle. record {
      stopped = λ closed. absurd (ground arith);
      known = h.known;
      complete = h.complete;
    }

close_connection-IsConsistent :
    (c : Connection) → IsConsistent c → IsConsistent (close_connection c)
unfolding close_connection set_stream_error
close_connection-IsConsistent c h =
    IsConsistent-if c.closed c _ h
      λ open_. record { stopped = λ _. (refl, refl); known = h.known; complete = h.complete }

on_message-IsConsistent :
    (c : Connection) (m : Message) (now : ℕ)
    → c.running ≡ true
    → IsConsistent c
    → IsConsistent (on_message c m now)
unfolding on_message set_stream_error
on_message-IsConsistent c m now running h = record {
  stopped = λ closed. absurd (ground (arith, (h.stopped closed).0));
  known =
      All-imp (λ k. (mem k c.awaited || contains k c.cache.entries) ≡ true)
        (λ k.
          (mem k (discard_key m.key c.awaited) || contains k (store_message c.cache m now).entries)
          ≡ true)
        c.blocks
        (λ k p.
          ground (arith, store_message-contains k c.cache m now, discard_key-mem k m.key c.awaited))
        h.known;
  complete = λ ready. elim (Bool-cases (none_left (discard_key m.key c.awaited))) [
    | inl empty ↦ none_left-nil (discard_key m.key c.awaited) empty
    | inr more ↦
        let was : c.awaited ≡ [] = h.complete (rw more at ready) in ap (discard_key m.key) was
  ];
}

on_failure-IsConsistent :
    (b : Backoff) (c : Connection) (e : String)
    → c.running ≡ true
    → IsConsistent c
    → IsConsistent (on_failure b c e)
unfolding on_failure set_stream_error
on_failure-IsConsistent b c e running h = record {
  stopped = λ closed. ((h.stopped closed).0, refl);
  known = h.known;
  complete = h.complete;
}

Step-IsConsistent : {b : Backoff} {c d : Connection} → Step b c d → IsConsistent c → IsConsistent d
Step-IsConsistent (starting c) h = start_stream-IsConsistent _ c h
Step-IsConsistent (message c m now running) h = on_message-IsConsistent c m now running h
Step-IsConsistent (failure c e running) h = on_failure-IsConsistent _ c e running h
Step-IsConsistent (closing c) h = close_connection-IsConsistent c h

new_connection-IsConsistent :
    (blocks : List BlockKey) (max_stale : ℕ) → IsConsistent (new_connection blocks max_stale)
unfolding new_connection new_cache
new_connection-IsConsistent blocks max_stale = record {
  stopped = λ closed. absurd (cc);
  known =
      All-imp (λ k. mem k blocks ≡ true) (λ k. (mem k blocks || false) ≡ true) blocks
        (λ k p. ground (arith, p)) (mem_self blocks);
  complete = λ ready. absurd (cc);
}

-- Every connection that was made and used in any order of calls, messages and failures is
-- consistent: closed, it has no stream task and answers no read; and once it is ready, every block
-- that it declared has an entry in the cache.
pub Reaches-IsConsistent :
    {b : Backoff} (blocks : List BlockKey) (max_stale : ℕ) {c : Connection}
    → Reaches b (new_connection blocks max_stale) c
    → IsConsistent c
Reaches-IsConsistent blocks max_stale here = new_connection-IsConsistent blocks max_stale
Reaches-IsConsistent blocks max_stale (next r s) =
    Step-IsConsistent s (Reaches-IsConsistent blocks max_stale r)
