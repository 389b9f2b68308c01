-- ===== src/Server/Supervisor/Failsafe.antt =====
-- dtsu_server.py: what the supervisor serves when the data is stale, and how it ends.
use nd45_dtsu666_converter.Canonical.{should_serve}
use nd45_dtsu666_converter.Server.Supervisor.{
  Action, wait, server_action, stop, perform, supervise, start, no_action, supervise_round,
  supervise_server, take_down, new_supervisor, finish, choose, Supervisor, Round, serve, Effect,
  shutdown, SupervisorConf, reap, cancel_task,
}
use nd45_dtsu666_converter.Stats.{status_started, status_stopped}
use nd45_dtsu666_converter.Base.{
  err, ok, Option, inr, inl, refl, Result, Result-cases, Bool-cases, arith, ◌++◌, ◌∷◌, [], List,
  false, true, Bool, ◌≡◌, ◌+◌, suc, if◌then◌else◌, ℕ,
}

pub count_of_effect : (Effect → Bool) → List Effect → ℕ
count_of_effect p [] = 0
count_of_effect p (e ∷ es) = let rest = count_of_effect p es in if p e then suc rest else rest

abbrev pub is_serve : Effect → Bool
is_serve serve = true
is_serve _ = false

abbrev pub is_shutdown : Effect → Bool
is_shutdown shutdown = true
is_shutdown _ = false

abbrev pub serves : Supervisor → ℕ
serves s = count_of_effect is_serve s.effects

abbrev pub shutdowns : Supervisor → ℕ
shutdowns s = count_of_effect is_shutdown s.effects

count_append :
    (p : Effect → Bool) (xs ys : List Effect)
    → count_of_effect p (xs ++ ys) ≡ count_of_effect p xs + count_of_effect p ys
unfolding count_of_effect
count_append p [] ys = omega arith
count_append p (x ∷ xs) ys = ground (arith, count_append p xs ys)

abbrev pub bit : Bool → ℕ
bit true = 1
bit false = 0

-- The status tells the truth, and every server that was started is shut down but the one that runs.
pub record IsConsistent (s : Supervisor) : Type 0 where
  pub reported : s.status.running ≡ s.up
  pub counted : s.status.starts ≡ s.status.stops + bit s.up
  pub stamped : s.status.last_start_ts ≡ s.last_start
  pub closed : serves s ≡ shutdowns s + bit s.up

pub reap-IsConsistent :
    (cfg : SupervisorConf) (r : Round) (s : Supervisor)
    → IsConsistent s
    → IsConsistent (reap cfg r s)
unfolding reap status_stopped count_of_effect
reap-IsConsistent cfg r s h = ground (
  arith,
  count_append is_serve s.effects (shutdown ∷ []),
  count_append is_serve s.effects (shutdown ∷ cancel_task ∷ []),
  count_append is_shutdown s.effects (shutdown ∷ []),
  count_append is_shutdown s.effects (shutdown ∷ cancel_task ∷ []),
)

-- What a round ends with, if it does not raise.
abbrev Kept : Result Supervisor → Type 0
Kept (ok s) = IsConsistent s
Kept (err _) = Unit

perform-Kept :
    (a : Action) (r : Round) (s : Supervisor)
    → IsConsistent s
    → (a ≡ start → s.up ≡ false)
    → (a ≡ stop → s.up ≡ true)
    → Kept (perform a r s)
unfolding status_stopped status_started count_of_effect
perform-Kept start r s h down up = elim (Result-cases r.factory) [
  | inr (x, e) ↦ rw (e, Kept) tt
  | inl (u, e) ↦
      rw (e, Kept)
        (ground (
          arith,
          down refl,
          count_append is_serve s.effects (serve ∷ []),
          count_append is_shutdown s.effects (serve ∷ []),
        ))
]
perform-Kept stop r s h down up = ground (
  arith,
  up refl,
  count_append is_serve s.effects (shutdown ∷ cancel_task ∷ []),
  count_append is_shutdown s.effects (shutdown ∷ cancel_task ∷ []),
)
perform-Kept wait r s h down up = h
perform-Kept no_action r s h down up = h

server_action_start :
    (fresh running : Bool) (now : ℕ) (last_start : Option ℕ) (gap : ℕ)
    → server_action fresh running now last_start gap ≡ start
    → (fresh ≡ true) × (running ≡ false)
unfolding server_action
server_action_start fresh running now last_start gap h = ground arith

server_action_stop :
    (fresh running : Bool) (now : ℕ) (last_start : Option ℕ) (gap : ℕ)
    → server_action fresh running now last_start gap ≡ stop
    → (fresh ≡ false) × (running ≡ true)
unfolding server_action
server_action_stop fresh running now last_start gap h = ground arith

supervise_round-Kept :
    (cfg : SupervisorConf) (r : Round) (s : Supervisor)
    → IsConsistent s
    → Kept (supervise_round cfg r s)
unfolding supervise_round
supervise_round-Kept cfg r s h =
    let s' = reap cfg r s in
    perform-Kept (choose cfg r s') r s' (reap-IsConsistent cfg r s h)
      (λ e. (server_action_start _ s'.up r.now s'.last_start cfg.min_restart_interval e).1)
      (λ e. (server_action_stop _ s'.up r.now s'.last_start cfg.min_restart_interval e).1)

pub supervise-IsConsistent :
    (cfg : SupervisorConf) (rounds : List Round) (s : Supervisor)
    → IsConsistent s
    → IsConsistent (supervise cfg rounds s)
unfolding supervise
supervise-IsConsistent cfg [] s h = h
supervise-IsConsistent cfg (r ∷ rs) s h = elim (Result-cases (supervise_round cfg r s)) [
  | inr (x, e) ↦ rw (e, supervise) (reap-IsConsistent cfg r s h)
  | inl (s', e) ↦
      rw (e, supervise)
        (supervise-IsConsistent cfg rs s' (rw (e, Kept) at (supervise_round-Kept cfg r s h)))
]

new_supervisor-IsConsistent : IsConsistent new_supervisor
unfolding count_of_effect
new_supervisor-IsConsistent = record {
  reported = refl;
  counted = refl;
  stamped = refl;
  closed = refl;
}

finish_closed :
    (s : Supervisor)
    → IsConsistent s
    → ((finish s).up ≡ false)
      × ((finish s).status.running ≡ false)
      × ((finish s).status.starts ≡ (finish s).status.stops)
      × (serves (finish s) ≡ shutdowns (finish s))
unfolding finish status_stopped count_of_effect
finish_closed s h = ground (
  arith,
  count_append is_serve s.effects [],
  count_append is_shutdown s.effects [],
  count_append is_serve s.effects (shutdown ∷ cancel_task ∷ []),
  count_append is_shutdown s.effects (shutdown ∷ cancel_task ∷ []),
)

-- However the rounds go, and however the loop ends, no server is left running: each start is
-- matched by a shutdown, and the status reports down with as many stops as starts. A cancellation
-- that arrives while a shutdown is awaited is not part of the model.
pub supervise_server_closed :
    (cfg : SupervisorConf) (rounds : List Round)
    → let s = supervise_server cfg rounds in
      (s.up ≡ false)
      × (s.status.running ≡ false)
      × (s.status.starts ≡ s.status.stops)
      × (serves s ≡ shutdowns s)
unfolding supervise_server
supervise_server_closed cfg rounds =
    finish_closed (supervise cfg rounds new_supervisor)
      (supervise-IsConsistent cfg rounds new_supervisor new_supervisor-IsConsistent)

-- A round that finds the data stale never raises, and ends with the server down.
pub supervise_round_stale :
    (cfg : SupervisorConf) (r : Round) (s : Supervisor)
    → should_serve cfg.max_age r.age ≡ false
    → (s' : Supervisor) × (supervise_round cfg r s ≡ ok s') × (s'.up ≡ false)
unfolding supervise_round server_action
supervise_round_stale cfg r s h = elim (Bool-cases (reap cfg r s).up) [
  | inl up ↦ (take_down (reap cfg r s) (shutdown ∷ cancel_task ∷ []), rw (h, up), refl)
  | inr down ↦ (reap cfg r s, rw (h, down), down)
]
