-- ===== src/Server/Supervisor/Restarts.antt =====
-- dtsu_server.py: when the supervisor starts a server, and how often.
use mathlib.Core.Path.{subst}
use nd45_dtsu666_converter.Server.Supervisor.{
  take_up, stop, no_action, new_supervisor, supervise_round, reap, wait, Supervisor, choose, start,
  SupervisorConf, server_action, Round, Action, perform,
}
use nd45_dtsu666_converter.Canonical.{should_serve}
use nd45_dtsu666_converter.Base.{
  err, ok, arith, ◌∷◌, [], List, some, none, Option, false, true, Bool, inr, inl, ◌∙◌, refl, ◌≡◌,
  ◌≤◌, ◌+◌, Result, Result-cases, Option-cases, Bool-cases, if◌then◌else◌, ℕ,
}

abbrev is_start : Action → Bool
is_start start = true
is_start _ = false

abbrev pub prepend_if : Bool → ℕ → List ℕ → List ℕ
prepend_if true t ts = t ∷ ts
prepend_if false t ts = ts

-- The times of the starts of a run, in order.
abbrev pub start_times : SupervisorConf → List Round → Supervisor → List ℕ
start_times cfg [] s = []
start_times cfg (r ∷ rs) s = elim (supervise_round cfg r s) [
  | err e ↦ []
  | ok s' ↦
      let later = start_times cfg rs s' in
      if is_start (choose cfg r (reap cfg r s)) then r.now ∷ later else later
]

-- Each time lies at least `gap` after the one before it.
abbrev pub Spaced : ℕ → Option ℕ → List ℕ → Type 0
Spaced gap last [] = Unit
Spaced gap none (t ∷ ts) = Spaced gap (some t) ts
Spaced gap (some l) (t ∷ ts) = (l + gap ≤ t) × Spaced gap (some t) ts

reap-last_start :
    (cfg : SupervisorConf) (r : Round) (s : Supervisor) → (reap cfg r s).last_start ≡ s.last_start
unfolding reap
reap-last_start cfg r s = ground arith

-- What a round does to the time of the last start.
abbrev Stamped : SupervisorConf → Round → Supervisor → Result Supervisor → Type 0
Stamped cfg r s (ok s') =
    s'.last_start ≡ (if is_start (choose cfg r (reap cfg r s)) then some r.now else s.last_start)
Stamped cfg r s (err _) = Unit

perform-last_start :
    (a : Action) (r : Round) (s s' : Supervisor)
    → perform a r s ≡ ok s'
    → s'.last_start ≡ (if is_start a then some r.now else s.last_start)
perform-last_start start r s s' h = ground arith
perform-last_start wait r s s' h = ground arith
perform-last_start stop r s s' h = ground arith
perform-last_start no_action r s s' h = ground arith

round-last_start :
    (cfg : SupervisorConf) (r : Round) (s s' : Supervisor)
    → supervise_round cfg r s ≡ ok s'
    → s'.last_start ≡ (if is_start (choose cfg r (reap cfg r s)) then some r.now else s.last_start)
unfolding supervise_round
round-last_start cfg r s s' h =
    perform-last_start (choose cfg r (reap cfg r s)) r (reap cfg r s) s' h
    ∙ rw (reap-last_start cfg r s)

action_spaced :
    (fresh running : Bool) (now : ℕ) (last_start : Option ℕ) (gap : ℕ) {l : ℕ}
    → is_start (server_action fresh running now last_start gap) ≡ true
    → last_start ≡ some l
    → l + gap ≤ now
unfolding server_action
action_spaced fresh running now last_start gap h e = ground arith

Spaced-cons :
    (gap : ℕ) (last : Option ℕ) (t : ℕ) (ts : List ℕ)
    → ((l : ℕ) → last ≡ some l → l + gap ≤ t)
    → Spaced gap (some t) ts
    → Spaced gap last (t ∷ ts)
Spaced-cons gap none t ts h s = s
Spaced-cons gap (some l) t ts h s = (h l refl, s)

Spaced-from :
    (cfg : SupervisorConf) (rounds : List Round) (s : Supervisor)
    → Spaced cfg.min_restart_interval s.last_start (start_times cfg rounds s)
Spaced-from cfg [] s = tt
Spaced-from cfg (r ∷ rs) s = elim (Result-cases (supervise_round cfg r s)) [
  | inr (x, e) ↦ rw (e, start_times, Spaced) tt
  | inl (s', e) ↦ elim (Bool-cases (is_start (choose cfg r (reap cfg r s)))) [
    | inl started ↦
        rw (e, start_times, started)
          (Spaced-cons cfg.min_restart_interval s.last_start r.now (start_times cfg rs s')
            (λ l last.
              action_spaced _ (reap cfg r s).up r.now (reap cfg r s).last_start
                cfg.min_restart_interval started (reap-last_start cfg r s ∙ last))
            (subst (λ l. Spaced cfg.min_restart_interval l (start_times cfg rs s'))
              (round-last_start cfg r s s' e ∙ rw started) (Spaced-from cfg rs s')))
    | inr waited ↦
        rw (e, start_times, waited)
          (subst (λ l. Spaced cfg.min_restart_interval l (start_times cfg rs s'))
            (round-last_start cfg r s s' e ∙ rw waited) (Spaced-from cfg rs s'))
  ]
]

-- Restarts are throttled: in any run each start of the server lies at least
-- `min_restart_interval` after the start before it.
pub starts-Spaced :
    (cfg : SupervisorConf) (rounds : List Round)
    → Spaced cfg.min_restart_interval none (start_times cfg rounds new_supervisor)
starts-Spaced cfg rounds = Spaced-from cfg rounds new_supervisor

-- A round that finds the data fresh ends with the server up, if the factory does not raise and the
-- last start, if there was one, lies at least `min_restart_interval` back.
pub supervise_round_fresh :
    (cfg : SupervisorConf) (r : Round) (s : Supervisor)
    → should_serve cfg.max_age r.age ≡ true
    → r.factory ≡ ok tt
    → ((l : ℕ) → s.last_start ≡ some l → l + cfg.min_restart_interval ≤ r.now)
    → (s' : Supervisor) × (supervise_round cfg r s ≡ ok s') × (s'.up ≡ true)
unfolding supervise_round server_action
supervise_round_fresh cfg r s h f allowed = elim (Bool-cases (reap cfg r s).up) [
  | inl up ↦ (reap cfg r s, rw (h, up), up)
  | inr down ↦ elim (Option-cases s.last_start) [
    | inl never ↦ (take_up r (reap cfg r s), rw (h, down, reap-last_start cfg r s, never, f), refl)
    | inr (l, e) ↦ (
      take_up r (reap cfg r s),
      rw (h, down, reap-last_start cfg r s, e, f) (ground (arith, allowed l e)),
      refl,
    )
  ]
]
