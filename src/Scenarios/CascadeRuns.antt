-- ===== src/Scenarios/CascadeRuns.antt =====
-- Runs of the cascade controller with two servers.
use e_ovpn_pro.Base.{
  contains, lower, ℕ, true, false, Option, none, some, List, [], ◌∷◌, ◌++◌, Text, codes, ◌≡◌, refl,
  arith,
}
use e_ovpn_pro.AutoConnect.{connecting, settling, succeeded, cancelled}
use e_ovpn_pro.Events.{connected, failed}
use e_ovpn_pro.Cascade.Attempt.{Tag, new_attempt}
use e_ovpn_pro.Cascade.Attempt
use e_ovpn_pro.Cascade.State.{
  Env, Manager, returned, State, Callback, run_timeout, run_tick, initial,
}
use e_ovpn_pro.Cascade.Timers.{attempt_timeout}
use e_ovpn_pro.Cascade.Walk.{on_timeout, on_tick, try_current_server}
use e_ovpn_pro.Cascade.Controller.{
  begin, cancel, on_connection_event, is_definitive_backend_failure, failure_reason,
}
use e_ovpn_pro.Cascade.Loop.{Input, fires, receives, run, find_source}
use e_ovpn_pro.Cascade.Inactive.{SameRun, IsOver, inactive-run, cancel_final}
use e_ovpn_pro.Cascade.Exhaustion.{IsQuiet, Advanced}
use e_ovpn_pro.Cascade.Pending.{connects}
use e_ovpn_pro.Cascade.Silence.Turns.{IsExhausted}
use e_ovpn_pro.Cascade.Silence.{silent, timed_out, silent_cascade}
use e_ovpn_pro.Cascade.Events.{event, connected-IsOver, final_failure_advances, is_final}
use e_ovpn_pro.Cascade.Defects.{
  StillConnected, timeout_ignores_deadline, retry_leaves_pending, late_tick_skips_a_server,
}

abbrev first : Text
first = codes "a.ovpn"

abbrev second : Text
second = codes "b.ovpn"

abbrev queue : List Text
queue = first ∷ second ∷ []

abbrev quiet_manager : Manager
quiet_manager = record {
  status = returned false;
  start_watch = returned tt;
  connect = λ _. returned tt;
  disconnect = returned tt;
  can_cancel = true;
}

abbrev at_time : ℕ → Env
at_time t = record {
  now = t;
  wall = t;
  manager = some quiet_manager;
  is_file = λ _. true;
  user_busy = false;
}

quiet : (t : ℕ) → IsQuiet (at_time t) quiet_manager
quiet t = record {
  manager = refl;
  status = refl;
  watch = refl;
  connect = λ _. refl;
  files = λ _. refl;
  free = refl;
}

abbrev idle_state : State
idle_state = initial queue queue []

abbrev rounds : List (Env × Env)
rounds = (at_time 30_000_000, at_time 30_550_000) ∷ (at_time 61_000_000, at_time 61_550_000) ∷ []

silent_cascade_example :
    IsExhausted (timed_out queue) queue (silent rounds (begin (at_time 0) queue idle_state))
unfolding connects
silent_cascade_example =
    silent_cascade (at_time 0) quiet_manager queue rounds idle_state (λ e. cc e)
      ((λ e. cc e), ((λ e. cc e), tt)) (quiet 0)
      ((quiet 30_000_000, quiet 30_550_000), ((quiet 61_000_000, quiet 61_550_000), tt))
      (omega arith) tt

-- a run that tries the first server
abbrev trying : State
trying = record idle_state {
  active = true;
  phase = connecting;
  gen = 1;
  queue = queue;
  deadline = 30_000_000;
  current = some first;
  attempts = new_attempt first 0 30_000_000 ∷ [];
  active_attempt = some 0;
  timeout_id = some 1;
  tick_id = some 2;
  sources =
      (record { id = 1; interval = 30_000; callback = run_timeout 1 })
      ∷ (record { id = 2; interval = 100; callback = run_tick 1 })
      ∷ [];
  next_source = 3;
}

abbrev inputs : List (Env × Input)
inputs = (at_time 5, receives (event connected none)) ∷ (at_time 6, fires 1) ∷ []

inactive-run_example : SameRun idle_state (run inputs idle_state)
inactive-run_example = inactive-run inputs idle_state refl

cancel_final_example :
    IsOver cancelled (cancel (at_time 3) trying)
    × ((cancel (at_time 3) trying).gen ≡ 2)
    × SameRun (cancel (at_time 3) trying) (run inputs (cancel (at_time 3) trying))
cancel_final_example = cancel_final (at_time 3) inputs trying refl

connected-IsOver_example :
    IsOver succeeded (on_connection_event (at_time 3) (event connected none) trying).0
connected-IsOver_example = connected-IsOver (at_time 3) none trying refl

abbrev leaving : State
leaving = record trying { phase = settling; expect_disconnect = true }

abbrev generic_error : Option Text
generic_error = some (codes "busy")

generic : is_final generic_error ≡ false
unfolding failure_reason is_definitive_backend_failure contains lower
generic = refl

final_loss : is_final none ≡ true
unfolding failure_reason
final_loss = refl

lost_reason : failure_reason [] ≡ Attempt.disconnect
unfolding failure_reason
lost_reason = refl

final_failure_advances_example :
    Advanced first
      (failure_reason [])
      trying
      (on_connection_event (at_time 3) (event failed none) trying).0
final_failure_advances_example =
    final_failure_advances (at_time 3) none trying refl refl b'a' (codes ".ovpn") refl final_loss

timeout_ignores_deadline_example :
    Advanced first Attempt.timeout trying (on_timeout (at_time 7) 1 trying).0
timeout_ignores_deadline_example =
    timeout_ignores_deadline (at_time 7) b'a' (codes ".ovpn") trying refl refl refl (omega arith)

abbrev held_manager : Manager
held_manager = record quiet_manager { status = returned true }

abbrev held : ℕ → Env
held t = record (at_time t) { manager = some held_manager }

is_held : (t : ℕ) → StillConnected (held t) held_manager
is_held t = record { manager = refl; status = refl; watch = refl; told = refl }

abbrev before_first : State
before_first = record idle_state { active = true; phase = settling; gen = 1; queue = queue }

retry_leaves_pending_example :
    let t = try_current_server (held 9) (try_current_server (held 5) before_first) in
    (t.attempts ≡ (
      ([] ++ new_attempt first 5 (attempt_timeout before_first first) ∷ [])
      ++ new_attempt first 9 (attempt_timeout (try_current_server (held 5) before_first) first)
        ∷ []))
    × (t.active_attempt ≡ some 1)
retry_leaves_pending_example =
    retry_leaves_pending (held 5) (held 9) held_manager held_manager first before_first (is_held 5)
      (is_held 9) refl refl (omega arith)

abbrev armed : Option Callback
armed = some (run_timeout 1)

late_tick_skips_a_server_example :
    let t = (on_tick (at_time 30_000_001) 1 trying).0 in
    let u = (on_timeout (at_time 30_000_002) 1 t).0 in
    (find_source 1 t.sources ≡ armed)
    × (t.index ≡ 1)
    × (u.index ≡ 2)
    × (u.failures ≡ ([] ++ (first, Attempt.timeout) ∷ []) ++ (first, Attempt.timeout) ∷ [])
late_tick_skips_a_server_example =
    late_tick_skips_a_server (at_time 30_000_001) (at_time 30_000_002) b'a' 1 2 (codes ".ovpn")
      trying refl refl (omega arith) refl refl refl refl refl (omega arith)
      (unfold find_source in refl)
