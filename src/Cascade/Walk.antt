-- ===== src/Cascade/Walk.antt =====
-- The walk down the queue in eovpn/cascade_controller.py: `advance`, the timer callbacks and
-- `_try_current_server`.
use e_ovpn_pro.Base.{
  ℕ, ◌+◌, Bool, true, false, not, ◌||◌, Option, none, some, [], ◌∷◌, ◌++◌, Text, codes, length,
  get_elem?, ltb, leb, ◌==◌, if◌then◌else◌,
}
use e_ovpn_pro.AutoConnect.{connecting, settling, exhausted}
use e_ovpn_pro.Cascade.Attempt.{Tag, tag_text, ConnectionAttempt, Ending, new_attempt, close}
use e_ovpn_pro.Cascade.Attempt
use e_ovpn_pro.Cascade.State.{
  returned, raised, Manager, Env, watched, asked_disconnect, asked_connect, marked_failed, State,
  emit, select_server,
}
use e_ovpn_pro.Cascade.Timers.{
  is_connected, attempt_timeout, disarm_timers, update_banner, arm_timeout_and_ticks, arm_settle,
}
use e_ovpn_pro.Cascade.Finish.{complete_active_attempt, finish}

-- `error_message or reason`
abbrev pub or_reason : Option Text → Tag → Option Text
or_reason none reason = some (tag_text reason)
or_reason (some []) reason = some (tag_text reason)
or_reason (some (c ∷ message)) reason = some (c ∷ message)

abbrev pub or_tag : Option Tag → Tag → Option Tag
or_tag none reason = some reason
or_tag (some code) reason = some code

unfoldable pub mark_failure : Env → Option Text → Tag → Option Tag → Option Text → State → State
mark_failure env none reason code message s = s
mark_failure env (some []) reason code message s = s
mark_failure env (some (c ∷ name)) reason code message s =
    let marked = emit (marked_failed (c ∷ name)) s in
    complete_active_attempt env
      (record { result = reason; code = or_tag code reason; message = or_reason message reason })
      (record marked { failures = marked.failures ++ (c ∷ name, reason) ∷ [] })

unfoldable pub asked : Bool → State → State
asked true s = emit asked_disconnect s
asked false s = s

-- the step to the next index
unfoldable pub move_on : State → State
move_on s =
    let quiet = disarm_timers s in
    record quiet {
      index = quiet.index + 1;
      phase = settling;
      expect_disconnect = true;
      manual_disconnect = true;
    }

-- `advance`; an exception of `status` or `disconnect` changes nothing in what follows.
unfoldable pub advance : Env → Tag → Option Tag → Option Text → State → State
advance env reason code message s =
    let marked = mark_failure env s.current reason code message s in
    let moved = arm_settle (asked (is_connected env.manager) (move_on marked)) in
    if s.active then moved else s

abbrev pub message_or : Option Text → Text → Text
message_or none d = d
message_or (some []) d = d
message_or (some (c ∷ m)) d = c ∷ m

-- `not self.active or gen != self.gen`
abbrev pub is_stale : ℕ → State → Bool
is_stale gen s = not s.active || not (gen == s.gen)

-- `_on_timeout`
unfoldable pub on_timeout : Env → ℕ → State → State × Bool
on_timeout env gen s =
    let forgotten = record s { timeout_id = none } in
    let again = arm_timeout_and_ticks env (record forgotten { deadline = env.now + 4_000_000 }) in
    let given_up =
      advance env Attempt.timeout (some Attempt.timeout)
        (some (message_or forgotten.pending_failure_message (codes "Handshake timeout expired.")))
        forgotten in
    if is_stale gen s
    then (forgotten, false)
    else if env.user_busy
    then (again, false)
    else (given_up, false)

unfoldable pub when_current : Option Text → State → State → State
when_current none expired s = s
when_current (some name) expired s = expired

-- `_update_connect_button_timer`
unfoldable pub update_connect_button_timer : Env → State → State
unfolding when_current
update_connect_button_timer env s =
    let expired = (on_timeout env s.gen s).0 in
    if s.active then when_current s.current (if leb s.deadline env.now then expired else s) s else s

-- `_on_tick`
unfoldable pub on_tick : Env → ℕ → State → State × Bool
on_tick env gen s =
    let expired = (on_timeout env gen s).0 in
    let shown = update_connect_button_timer env (update_banner env s) in
    if is_stale gen s
    then (s, false)
    else if env.user_busy
    then (record s { deadline = s.deadline + 100_000 }, true)
    else if leb s.deadline env.now
    then (expired, false)
    else (shown, true)

-- the fields of a new attempt
unfoldable pub open_attempt : Env → Text → State → State
open_attempt env filename s =
    let budget = attempt_timeout s filename in
    record s {
      current = some filename;
      phase = connecting;
      deadline = env.now + budget;
      active_attempt = some (length s.attempts);
      pending_failure_message = none;
      attempts = s.attempts ++ new_attempt filename env.wall budget ∷ [];
    }

-- `_try_current_server` up to the arming of the timers
unfoldable pub start_attempt : Env → Text → State → State
start_attempt env filename s =
    let timed = update_connect_button_timer env (open_attempt env filename s) in
    let ready = record timed { expect_disconnect = false; manual_disconnect = false } in
    arm_timeout_and_ticks env (update_banner env (select_server filename ready))

-- the handler of an exception of the manager
unfoldable pub fail_attempt : Env → Text → State → State
fail_attempt env message s = advance env Attempt.error (some Attempt.backend_error) (some message) s

-- The manager is still connected: it is told to disconnect, and the attempt is made anew after the
-- settle time, up to three times.
unfoldable pub retry_disconnect : Env → Manager → State → State
unfolding fail_attempt
retry_disconnect env m s =
    let counted = record s { disconnect_retries = s.disconnect_retries + 1 } in
    let waiting =
      emit asked_disconnect
        (record counted { expect_disconnect = true; manual_disconnect = true; phase = settling }) in
    let gave_up = advance env Attempt.disconnect none none counted in
    let told : State = elim m.disconnect [
      | returned _ ↦ arm_settle waiting
      | raised e ↦ fail_attempt env e waiting
    ] in
    if ltb 3 counted.disconnect_retries then gave_up else told

unfoldable pub connect_file : Env → Manager → Text → State → State
unfolding fail_attempt
connect_file env m filename s =
    let fresh = record s { disconnect_retries = 0 } in
    let absent =
      advance env Attempt.missing (some Attempt.config_missing)
        (some (codes "Configuration file is missing: " ++ filename)) fresh in
    let called = emit (asked_connect filename) fresh in
    let tried : State = elim (m.connect filename) [
      | returned _ ↦ called
      | raised e ↦ fail_attempt env e called
    ] in
    if env.is_file filename then tried else absent

-- the `try` block
unfoldable pub use_manager : Env → Text → Manager → State → State
unfolding fail_attempt
use_manager env filename m s =
    let watching = emit watched s in
    let asked_status : State = elim m.status [
      | raised e ↦ fail_attempt env e watching
      | returned true ↦ retry_disconnect env m watching
      | returned false ↦ connect_file env m filename watching
    ] in
    elim m.start_watch [ raised e ↦ fail_attempt env e watching | returned _ ↦ asked_status ]

unfoldable pub try_server : Env → Option Text → State → State
try_server env none s = finish env exhausted true s
try_server env (some filename) s =
    let started = start_attempt env filename s in
    elim env.manager [
      | none ↦ finish env exhausted true started
      | some m ↦ use_manager env filename m started
    ]

-- `_try_current_server`
unfoldable pub try_current_server : Env → State → State
unfolding try_server
try_current_server env s =
    let tried = try_server env (get_elem? s.queue s.index) s in if s.active then tried else s

-- `_fire`, the callback of `_arm_settle`
unfoldable pub on_settle : Env → ℕ → State → State × Bool
on_settle env gen s =
    let forgotten = record s { settle_id = none } in
    let tried = try_current_server env forgotten in
    if is_stale gen s then (forgotten, false) else (tried, false)
