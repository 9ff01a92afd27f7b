-- ===== src/Cascade/Controller.antt =====
-- The entry points of `CascadeController` in eovpn/cascade_controller.py, the events of the backend,
-- and the dispatch of a timer source by the main loop.
use e_ovpn_pro.Base.{
  ◌+◌, min, Bool, true, false, not, ◌&&◌, ◌||◌, Option, none, some, List, [], ◌∷◌, Text, codes,
  same, lower, contains, any, length, ltb, if◌then◌else◌,
}
use e_ovpn_pro.AutoConnect.{
  CascadePhase, preparing, connecting, settling, succeeded, exhausted, cancelled,
}
use e_ovpn_pro.AutoConnect.Queue.{named, build_cascade_queue, max_cascade_candidates}
use e_ovpn_pro.Events.{
  ConnectionEvent, ConnectionEventKind, connected, disconnected, failed, progress, paused, resumed,
}
use e_ovpn_pro.Cascade.Attempt.{Tag, tag_text, ConnectionAttempt, Ending, new_attempt, close}
use e_ovpn_pro.Cascade.Attempt
use e_ovpn_pro.Cascade.State.{
  returned, raised, Manager, Env, watched, asked_disconnect, asked_cancel, activated_sort,
  asked_speed_test, toasted, no_configurations, no_reachable_servers, already_connected, first_of,
  State, emit,
}
use e_ovpn_pro.Cascade.Timers.{is_connected, current_name, disarm_timers, update_banner, arm_settle}
use e_ovpn_pro.Cascade.Finish.{finish}
use e_ovpn_pro.Cascade.Walk.{advance, try_current_server}

-- `busy`
abbrev pub busy : State → Bool
busy s = s.active || s.auto_cascade_after_test

-- `_show_preparing`
unfoldable pub show_preparing : State → State
show_preparing s = record s {
  active = true;
  gen = s.gen + 1;
  phase = preparing;
  queue = [];
  index = 0;
  current = none;
  cascade_bar = record { num = 0; den = 1 };
  fastest_cancels = true;
}

-- `_begin` up to the `try` block
unfoldable pub reset_run : List Text → State → State
reset_run queue s = record s {
  gen = s.gen + 1;
  active = true;
  queue = queue;
  index = 0;
  failures = [];
  attempts = [];
  active_attempt = none;
  expect_disconnect = false;
  disconnect_retries = 0;
  phase = connecting;
  current = none;
  manual_disconnect = false;
  controls_locked = true;
  fastest_cancels = true;
  connect_sensitive = true;
  progress_bar = 0;
}

-- the `try` block with a connected manager: after an exception the walk begins at once
unfoldable pub leave_session : Env → Manager → State → State
leave_session env m s =
    let leaving =
      update_banner env
        (record s { expect_disconnect = true; manual_disconnect = true; phase = settling }) in
    let watching = emit watched leaving in
    let asked = emit asked_disconnect watching in
    let told : State = elim m.disconnect [
      | raised _ ↦ try_current_server env asked
      | returned _ ↦ arm_settle asked
    ] in
    elim m.start_watch [ raised _ ↦ try_current_server env watching | returned _ ↦ told ]

unfoldable pub begin_with : Env → Option Manager → State → State
begin_with env none s = try_current_server env s
begin_with env (some m) s = elim m.status [
  | raised _ ↦ try_current_server env s
  | returned false ↦ try_current_server env s
  | returned true ↦ leave_session env m s
]

-- `_begin`
unfoldable pub begin : Env → List Text → State → State
unfolding begin_with
begin env queue s = begin_with env env.manager (reset_run queue s)

-- `_candidate_scope`: all configurations, whatever the list shows. The window has the method that
-- lists them, and it does not raise, so that the fallback to the visible list is not reached.
unfoldable pub candidate_scope : State → List Text
candidate_scope s = named s.configs

abbrev pub is_selected : Option Text → Text → Bool
is_selected none first = false
is_selected (some name) first = same name first

unfoldable pub begin_queue : Env → List Text → State → State
begin_queue env [] s =
    if s.active then finish env exhausted true s else emit (toasted no_reachable_servers) s
begin_queue env (first ∷ rest) s =
    let total = length (candidate_scope s) in
    let noted =
      if ltb max_cascade_candidates total
      then emit (toasted (first_of (length (first ∷ rest)) total)) s
      else s in
    let there =
      if s.active
      then finish env succeeded true (record s { current = s.selected })
      else emit (toasted (already_connected first)) s in
    let walking = begin env (first ∷ rest) noted in
    if is_connected env.manager && is_selected s.selected first then there else walking

-- `start_from_visible_list`
unfoldable pub start_from_visible_list : Env → State → State
unfolding begin_queue
start_from_visible_list env s =
    begin_queue env
      (build_cascade_queue (candidate_scope s) s.latencies true max_cascade_candidates) s

unfoldable pub measure_first : State → State
measure_first s =
    let shown = show_preparing (record s { auto_cascade_after_test = true }) in
    if s.sort_by_speed_active then emit asked_speed_test shown else emit activated_sort shown

unfoldable pub start_with : Env → List Text → State → State
unfolding measure_first
start_with env [] s = emit (toasted no_configurations) s
start_with env (_ ∷ _) s = elim s.latencies [
  | [] ↦ measure_first s
  | _ ∷ _ ↦ start_from_visible_list env s
]

-- `start`
unfoldable pub start : Env → State → State
unfolding start_with
start env s = if s.active then s else start_with env (candidate_scope s) s

unfoldable pub cancel_operation : Option Manager → State → State
cancel_operation none s = s
cancel_operation (some m) s = if m.can_cancel then emit asked_cancel s else s

-- `cancel`
unfoldable pub cancel : Env → State → State
cancel env s =
    let told = cancel_operation env.manager s in
    if busy s
    then finish env cancelled true
        (record told { auto_cascade_after_test = false; gen = told.gen + 1 })
    else s

-- `toggle`
unfoldable pub toggle : Env → State → State
toggle env s = if busy s then cancel env s else start env s

abbrev pub failure_markers : List Text
failure_markers =
    codes "auth_failed"
    ∷ codes "authentication failed"
    ∷ codes "tls handshake failed"
    ∷ codes "certificate"
    ∷ codes "permission denied"
    ∷ codes "invalid configuration"
    ∷ codes "configuration file"
    ∷ codes "unsupported"
    ∷ codes "no such file"
    ∷ codes "backend unavailable"
    ∷ []

-- `_is_definitive_backend_failure`
unfoldable pub is_definitive_backend_failure : Text → Bool
is_definitive_backend_failure error_text =
    any (λ marker. contains marker error_text) failure_markers

-- the `reason` of a failure event; an empty error counts as none
unfoldable pub failure_reason : Text → Tag
failure_reason [] = Attempt.disconnect
failure_reason (c ∷ e) =
    if contains (codes "auth") (lower (c ∷ e)) then Attempt.auth else Attempt.error

abbrev pub is_error : Tag → Bool
is_error Attempt.error = true
is_error _ = false

-- a failure while `CONNECTING`: a generic error keeps the candidate alive until its deadline
unfoldable pub on_failure : Env → Option Text → State → State × Bool
on_failure env error s =
    let text = current_name error in
    let reason = failure_reason text in
    let kept = update_banner env (record s { pending_failure_message = error }) in
    let moved = advance env reason (some reason) error s in
    if is_error reason && not (is_definitive_backend_failure (lower text))
    then (kept, true)
    else (moved, true)

-- `FAILED` and `DISCONNECTED`, by the phase
unfoldable pub on_lost : CascadePhase → Env → Option Text → State → State × Bool
on_lost settling env error s =
    if s.expect_disconnect
    then (record s { expect_disconnect = false; manual_disconnect = true }, true)
    else (s, true)
on_lost connecting env error s = on_failure env error s
on_lost _ env error s = (s, true)

unfoldable pub handle_event : ConnectionEventKind → Env → Option Text → State → State × Bool
unfolding on_lost
handle_event connected env error s =
    (finish env succeeded false (record (disarm_timers s) { expect_disconnect = false }), false)
handle_event progress env error s = (record s { progress_bar = min 95 (s.progress_bar + 35) }, true)
handle_event failed env error s = on_lost s.phase env error s
handle_event disconnected env error s = on_lost s.phase env error s
handle_event paused env error s = (s, false)
handle_event resumed env error s = (s, false)

-- `on_connection_event`: true when the regular handler has to skip the event
unfoldable pub on_connection_event : Env → ConnectionEvent → State → State × Bool
unfolding handle_event
on_connection_event env e s =
    let handled = handle_event e.kind env e.error s in if s.active then handled else (s, false)
