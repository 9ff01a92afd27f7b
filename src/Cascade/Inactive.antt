-- ===== src/Cascade/Inactive.antt =====
-- A cascade that is over stays over: late timers and late events of the backend find it inactive.
use e_ovpn_pro.Base.{
  ap, ℕ, ◌+◌, Bool, true, false, Option, none, some, List, [], ◌∷◌, ◌≡◌, refl, arith, Option-cases,
  inl, inr, ◌∙◌,
}
use e_ovpn_pro.AutoConnect.{CascadePhase, cancelled, succeeded}
use e_ovpn_pro.Events.{ConnectionEvent}
use e_ovpn_pro.Cascade.State.{
  Env, Callback, run_timeout, run_tick, run_settle, hide_banner, State, Manager, add_source, emit,
}
use e_ovpn_pro.Cascade.Finish.{
  on_hide_banner, finish, finish_succeeded, finish_cancelled, finish_exhausted, close_run,
  complete_active_attempt,
}
use e_ovpn_pro.Cascade.Timers.{disarm_timers}
use e_ovpn_pro.Cascade.Walk.{on_timeout, on_tick, on_settle, is_stale}
use e_ovpn_pro.Cascade.Controller.{on_connection_event, cancel, cancel_operation, busy}
use e_ovpn_pro.Cascade.Loop.{
  run_callback, find_source, settle_source, fire, Input, fires, receives, step, run,
}

-- `t` is `s` but for the ids and the list of the timer sources.
pub record SameRun (s t : State) : Type 0 where
  pub active : t.active ≡ s.active
  pub phase : t.phase ≡ s.phase
  pub gen : t.gen ≡ s.gen
  pub index : t.index ≡ s.index
  pub current : t.current ≡ s.current
  pub failures : t.failures ≡ s.failures
  pub attempts : t.attempts ≡ s.attempts
  pub effects : t.effects ≡ s.effects
  pub manual_disconnect : t.manual_disconnect ≡ s.manual_disconnect

pub SameRun-refl : (s : State) → SameRun s s
SameRun-refl s = ground arith

pub SameRun-trans : (s t u : State) → SameRun s t → SameRun t u → SameRun s u
SameRun-trans s t u h k = ground arith

abbrev pub gen_of : Callback → ℕ
gen_of (run_timeout g) = g
gen_of (run_tick g) = g
gen_of (run_settle g) = g
gen_of (hide_banner g) = g

-- The callback of another generation, or of a run that is over, changes nothing but the timers.
pub stale_callback :
    (env : Env) (c : Callback) (s : State)
    → is_stale (gen_of c) s ≡ true
    → SameRun s (run_callback env c s).0 × ((run_callback env c s).1 ≡ false)
unfolding run_callback on_timeout on_tick on_settle on_hide_banner
stale_callback env (run_timeout g) s h = rw h (ground arith, refl)
stale_callback env (run_tick g) s h = rw h (ground arith, refl)
stale_callback env (run_settle g) s h = rw h (ground arith, refl)
stale_callback env (hide_banner g) s h = (SameRun-refl s, refl)

inactive-is_stale : (g : ℕ) (s : State) → s.active ≡ false → is_stale g s ≡ true
inactive-is_stale g s h = ground arith

settled : (i : ℕ) (s : State) (r : State × Bool) → SameRun s r.0 → SameRun s (settle_source i r)
settled i s (t, true) h = h
settled i s (t, false) h = ground arith

fire-SameRun : (env : Env) (i : ℕ) (s : State) → s.active ≡ false → SameRun s (fire env i s)
unfolding fire
fire-SameRun env i s h = elim (Option-cases (find_source i s.sources)) [
  | inl e ↦ rw e (SameRun-refl s)
  | inr (c, e) ↦ rw e (
      settled i s (run_callback env c s)
        (stale_callback env c s (inactive-is_stale (gen_of c) s h)).0)
]

pub inactive-event :
    (env : Env) (e : ConnectionEvent) (s : State)
    → s.active ≡ false
    → on_connection_event env e s ≡ (s, false)
unfolding on_connection_event
inactive-event env e s h = simp h

step-SameRun :
    (env : Env) (input : Input) (s : State) → s.active ≡ false → SameRun s (step env input s)
unfolding step
step-SameRun env (fires i) s h = fire-SameRun env i s h
step-SameRun env (receives e) s h = rw (step, inactive-event env e s h) (SameRun-refl s)

-- Once a cascade is over, whatever sources fire and whatever the backend reports, it stays over: no
-- attempt is added or changed and no call is made.
pub inactive-run :
    (inputs : List (Env × Input)) (s : State) → s.active ≡ false → SameRun s (run inputs s)
unfolding run
inactive-run [] s h = SameRun-refl s
inactive-run ((env, input) ∷ inputs) s h =
    let here = step-SameRun env input s h in
    SameRun-trans s (step env input s) (run inputs (step env input s)) here
      (inactive-run inputs (step env input s) (here.active ∙ h))

-- A finished cascade is inactive and in the phase that was asked for; its timers are forgotten and
-- the controls are free again.
pub record IsOver (final : CascadePhase) (s : State) : Type 0 where
  pub active : s.active ≡ false
  pub test : s.auto_cascade_after_test ≡ false
  pub phase : s.phase ≡ final
  pub timeout_id : s.timeout_id ≡ none
  pub tick_id : s.tick_id ≡ none
  pub settle_id : s.settle_id ≡ none
  pub controls : s.controls_locked ≡ false
  pub connect : s.connect_sensitive ≡ true
  pub button : s.fastest_cancels ≡ false

pub finish-IsOver :
    (env : Env) (phase : CascadePhase) (restore : Bool) (s : State)
    → IsOver phase (finish env phase restore s)
unfolding finish finish_succeeded finish_cancelled finish_exhausted close_run disarm_timers
    complete_active_attempt add_source emit
finish-IsOver env succeeded restore s = ground arith
finish-IsOver env cancelled restore s = ground arith
finish-IsOver env _ restore s = ground arith

pub finish-gen :
    (env : Env) (phase : CascadePhase) (restore : Bool) (s : State)
    → (finish env phase restore s).gen ≡ s.gen
unfolding finish finish_succeeded finish_cancelled finish_exhausted close_run disarm_timers
    complete_active_attempt add_source emit
finish-gen env succeeded restore s = ground arith
finish-gen env cancelled restore s = ground arith
finish-gen env _ restore s = ground arith

cancel_operation-gen : (m : Option Manager) (s : State) → (cancel_operation m s).gen ≡ s.gen
unfolding cancel_operation emit
cancel_operation-gen none s = refl
cancel_operation-gen (some m) s = ground arith

-- the state that `cancel` hands to `finish`
cancel-finish :
    (env : Env) (s : State)
    → busy s ≡ true
    → (t : State) × (cancel env s ≡ finish env cancelled true t) × (t.gen ≡ s.gen + 1)
unfolding cancel emit
cancel-finish env s h = (
  record (cancel_operation env.manager s) {
    auto_cascade_after_test = false;
    gen = (cancel_operation env.manager s).gen + 1;
  },
  simp h,
  ap (λ (n : ℕ). n + 1) (cancel_operation-gen env.manager s),
)

-- Cancelling a busy cascade ends it for good: it starts a new generation, and after any further
-- timers and events it is still cancelled and has made no more calls.
pub cancel_final :
    (env : Env) (inputs : List (Env × Input)) (s : State)
    → busy s ≡ true
    → IsOver cancelled (cancel env s)
      × ((cancel env s).gen ≡ s.gen + 1)
      × SameRun (cancel env s) (run inputs (cancel env s))
cancel_final env inputs s h =
    let (t, e, g) = cancel-finish env s h in
    let over = finish-IsOver env cancelled true t in
    rw e (
      over,
      finish-gen env cancelled true t ∙ g,
      inactive-run inputs (finish env cancelled true t) over.active,
    )
