-- ===== src/App/Agreement.antt =====
-- app.py: the served registers and the canonical store, which tells how fresh they are.
use nd45_dtsu666_converter.Stats.{touch}
use mathlib.Core.Path.{subst}
use nd45_dtsu666_converter.Canonical.Spread.{record_sample}
use nd45_dtsu666_converter.Server.Encode.Image.{Serves, Disjoint}
use nd45_dtsu666_converter.Server.Encode.Update.{update_datastore-Serves, update_datastore_atomic}
use nd45_dtsu666_converter.Server.Encode.{update_datastore, points_of}
use nd45_dtsu666_converter.Registers.{TargetSide}
use nd45_dtsu666_converter.Datastore.{Datastore, DatastoreLaws}
use nd45_dtsu666_converter.Canonical.{CanonicalStore, store_update, Values}
use nd45_dtsu666_converter.App.{
  on_update, on_error, handle, poll_round, Bridge, base_on_update, after_write, stamp_store,
}
use nd45_dtsu666_converter.Base.{
  ◌∷◌, [], ◌∙◌, sym, err, ok, List, some, inr, inl, refl, ◌≡◌, Result, Exc, Result-cases, All,
  FloatLaws, Floats, ℕ,
}

module _ {F S : Type 0} ⦃fl : Floats F⦄ ⦃ds : Datastore S⦄ (laws : FloatLaws fl)
    (dsl : DatastoreLaws ds) (sides : List (TargetSide F)) (ct_ratio : F)
    (disjoint : Disjoint (points_of sides)) where
  -- Once the store is stamped, every point of the maps holds the encoding of the stored value.
  abbrev pub Agrees : Bridge F S → Type 0
  Agrees b =
      (t : ℕ)
      → b.store.ts ≡ some t
      → All (Serves b.slave b.store.values_ ct_ratio) (points_of sides)

  -- How a write leaves the datastore and the store.
  abbrev Written :
      S → CanonicalStore F → Values F → ℕ → Result (Unit {0}) × (S × CanonicalStore F) → Type 0
  Written s store vs ts (ok _, (s', store')) =
      (store' ≡ store_update store vs ts) × All (Serves s' vs ct_ratio) (points_of sides)
  Written s store vs ts (err _, (s', store')) = (s' ≡ s) × (store' ≡ store)

  stamp_store-Written :
      (s : S) (store : CanonicalStore F) (vs : Values F) (ts : ℕ) (r : Result (Unit {0})) (s' : S)
      → (r ≡ ok tt → All (Serves s' vs ct_ratio) (points_of sides))
      → ((x : Exc) → r ≡ err x → s' ≡ s)
      → Written s store vs ts (stamp_store sides ct_ratio (r, s') store vs ts)
  stamp_store-Written s store vs ts (ok tt) s' good bad = (refl, good refl)
  stamp_store-Written s store vs ts (err x) s' good bad = (bad x refl, refl)

  base_on_update-Written :
      (s : S) (store : CanonicalStore F) (vs : Values F) (ts : ℕ)
      → Written s store vs ts (base_on_update sides ct_ratio s store vs ts)
  unfolding base_on_update
  base_on_update-Written s store vs ts =
      stamp_store-Written s store vs ts (update_datastore s vs sides ct_ratio).0
        (update_datastore s vs sides ct_ratio).1
        (update_datastore-Serves laws dsl vs ct_ratio s sides disjoint)
        (λ x h. update_datastore_atomic s vs sides ct_ratio h)

  -- The rest of the callback leaves the datastore and the store alone.
  after_write_keeps :
      (r : Result (Unit {0})) (b : Bridge F S) (vs : Values F) (now : ℕ)
      → ((after_write sides ct_ratio r b vs now).1.slave ≡ b.slave)
        × ((after_write sides ct_ratio r b vs now).1.store ≡ b.store)
  after_write_keeps (err e) b vs now = (refl, refl)
  after_write_keeps (ok u) b vs now = elim (Result-cases (record_sample b.spread vs)) [
    | inl (s, e) ↦ (rw e, rw e)
    | inr (x, e) ↦ (rw e, rw e)
  ]

  handle_keeps :
      (p : Result (Unit {0}) × Bridge F S) (now : ℕ)
      → ((handle sides ct_ratio p now).slave ≡ p.1.slave)
        × ((handle sides ct_ratio p now).store ≡ p.1.store)
  unfolding on_error
  handle_keeps (ok u, b) now = (refl, refl)
  handle_keeps (err e, b) now = (refl, refl)

  -- A round with a sample writes what `base_on_update` writes.
  round_writes :
      (b : Bridge F S) (vs : Values F) (ts now : ℕ)
      → let w = base_on_update sides ct_ratio b.slave b.store vs ts in
        let b' = poll_round sides ct_ratio b (ok vs) ts now in
        (b'.slave ≡ w.1.0) × (b'.store ≡ w.1.1)
  unfolding poll_round on_update
  round_writes b vs ts now =
      let w = base_on_update sides ct_ratio b.slave b.store vs ts in
      let b1 = record b { heartbeat = touch b.heartbeat now; slave = w.1.0; store = w.1.1 } in
      let p = after_write sides ct_ratio w.0 b1 vs now in
      let (ka, kb) = after_write_keeps w.0 b1 vs now in
      let (ha, hb) = handle_keeps p now in (ha ∙ ka, hb ∙ kb)

  abbrev Joined : S → CanonicalStore F → Type 0
  Joined s store =
      (t : ℕ) → store.ts ≡ some t → All (Serves s store.values_ ct_ratio) (points_of sides)

  Joined-of_Written :
      (s : S) (store : CanonicalStore F) (vs : Values F) (ts : ℕ)
      (w : Result (Unit {0}) × (S × CanonicalStore F))
      → Written s store vs ts w
      → Joined s store
      → Joined w.1.0 w.1.1
  unfolding store_update
  Joined-of_Written s store vs ts (ok u, (s', store')) h j =
      subst (Joined s') (sym h.0) (λ t e. h.1)
  Joined-of_Written s store vs ts (err x, (s', store')) h j =
      subst (λ r. Joined r store') (sym h.0) (subst (Joined s) (sym h.1) j)

  poll_round-Agrees :
      (b : Bridge F S) (r : Result (Values F)) (ts now : ℕ)
      → Agrees b
      → Agrees (poll_round sides ct_ratio b r ts now)
  unfolding poll_round on_error
  poll_round-Agrees b (err e) ts now h = h
  poll_round-Agrees b (ok vs) ts now h =
      let w = base_on_update sides ct_ratio b.slave b.store vs ts in
      let (es, et) = round_writes b vs ts now in
      let j =
        Joined-of_Written b.slave b.store vs ts w (base_on_update-Written b.slave b.store vs ts)
          h in
      subst (λ s. Joined s (poll_round sides ct_ratio b (ok vs) ts now).store) (sym es)
        (subst (Joined w.1.0) (sym et) j)

-- What a round of the loop is given: the poll's outcome and the two clocks.
pub record PollTurn (F : Type 0) : Type 0 where
  pub outcome : Result (Values F)
  pub loop_time : ℕ
  pub monotonic : ℕ

module _ {F S : Type 0} ⦃fl : Floats F⦄ ⦃ds : Datastore S⦄ (sides : List (TargetSide F))
    (ct_ratio : F) where
  -- `run_poller`: rounds until the stop event
  unfoldable pub run_poller : List (PollTurn F) → Bridge F S → Bridge F S
  run_poller [] b = b
  run_poller (t ∷ ts) b =
      run_poller ts (poll_round sides ct_ratio b t.outcome t.loop_time t.monotonic)

  -- Over any sequence of polls, failed and rejected ones included, a bridge whose store has ever
  -- been stamped serves exactly the encoding of the sample in its store, at every point of every
  -- map, provided that this holds at the start and no two points of the maps share a register.
  pub run_poller-Agrees :
      (laws : FloatLaws fl) (dsl : DatastoreLaws ds) (disjoint : Disjoint (points_of sides))
      (turns : List (PollTurn F)) (b : Bridge F S)
      → Agrees laws dsl sides ct_ratio disjoint b
      → Agrees laws dsl sides ct_ratio disjoint (run_poller turns b)
  unfolding run_poller
  run_poller-Agrees laws dsl disjoint [] b h = h
  run_poller-Agrees laws dsl disjoint (t ∷ ts) b h =
      run_poller-Agrees laws dsl disjoint ts
        (poll_round sides ct_ratio b t.outcome t.loop_time t.monotonic)
        (poll_round-Agrees laws dsl sides ct_ratio disjoint b t.outcome t.loop_time t.monotonic h)
