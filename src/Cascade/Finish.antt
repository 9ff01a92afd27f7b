-- ===== src/Cascade/Finish.antt =====
-- How a cascade ends: `_complete_active_attempt`, `finish` and `_hide_banner` of
-- eovpn/cascade_controller.py.
use e_ovpn_pro.Base.{
  ℕ, Bool, true, false, not, ◌&&◌, Option, none, some, [], ◌∷◌, Text, codes, modify_at,
}
use e_ovpn_pro.AutoConnect.{CascadePhase, preparing, succeeded, cancelled}
use e_ovpn_pro.Cascade.Attempt.{Tag, tag_text, ConnectionAttempt, Ending, new_attempt, close}
use e_ovpn_pro.Cascade.Attempt
use e_ovpn_pro.Cascade.State.{
  Env, hide_banner, asked_disconnect, toasted, auto_connect_cancelled, connected_to, State,
  add_source, emit,
}
use e_ovpn_pro.Cascade.Timers.{is_connected, current_name, disarm_timers}

-- `_complete_active_attempt`
unfoldable pub complete_active_attempt : Env → Ending → State → State
complete_active_attempt env e s = elim s.active_attempt [
  | none ↦ s
  | some i ↦ record s { attempts = modify_at s.attempts i (close env.wall env.now s.deadline e) }
]

-- `_hide_banner`, which touches only the banner.
unfoldable pub on_hide_banner : ℕ → State → State × Bool
on_hide_banner gen s = (s, false)

-- What `finish` does in every phase, before it looks at the phase.
unfoldable pub close_run : CascadePhase → State → State
close_run phase s = record (disarm_timers s) {
  active = false;
  phase = phase;
  expect_disconnect = false;
  auto_cascade_after_test = false;
  controls_locked = false;
  connect_sensitive = true;
  fastest_cancels = false;
}

abbrev pub name_or_selected : Option Text → Option Text → Text
name_or_selected none selected = current_name selected
name_or_selected (some []) selected = current_name selected
name_or_selected (some (c ∷ name)) selected = c ∷ name

unfoldable pub finish_succeeded : Env → State → State
finish_succeeded env s =
    let closed =
      complete_active_attempt env (record { result = Attempt.success; code = none; message = none })
        s in
    add_source 3_000 (hide_banner s.gen) (
      emit (toasted (connected_to (name_or_selected s.current s.selected)))
        (record closed { cascade_bar = record { num = 1; den = 1 } }))

unfoldable pub disconnect_if : Bool → State → State
disconnect_if true s = emit asked_disconnect (record s { manual_disconnect = true })
disconnect_if false s = s

unfoldable pub finish_cancelled : Env → Bool → State → State
unfolding disconnect_if
finish_cancelled env drops s =
    let closed =
      complete_active_attempt env
        (record {
          result = Attempt.cancelled;
          code = some Attempt.cancelled;
          message = some (codes "Auto-connect cancelled by the user.");
        })
        s in
    disconnect_if (drops && is_connected env.manager) (emit (toasted auto_connect_cancelled) closed)

unfoldable pub finish_exhausted : Env → State → State
finish_exhausted env s =
    let closed =
      complete_active_attempt env
        (record {
          result = Attempt.backend_error;
          code = some Attempt.no_usable_candidate;
          message = some (codes "No usable backend or candidate remained.");
        })
        s in
    add_source 5_000 (hide_banner s.gen)
      (record closed { cascade_bar = record { num = 1; den = 1 } })

abbrev pub is_preparing : CascadePhase → Bool
is_preparing preparing = true
is_preparing _ = false

unfoldable pub finish_in : CascadePhase → Env → Bool → State → State
finish_in succeeded env drops s = finish_succeeded env s
finish_in cancelled env drops s = finish_cancelled env drops s
finish_in _ env drops s = finish_exhausted env s

-- `finish`
unfoldable pub finish : Env → CascadePhase → Bool → State → State
unfolding finish_in
finish env phase restore_connect_ui s =
    finish_in phase env (restore_connect_ui && not (is_preparing s.phase)) (close_run phase s)
