-- ===== src/MainWindow/SpeedTest.antt =====
-- The speed test of the main window, `trigger_speed_test` and `on_speed_test_complete` of
-- eovpn/main_window.py, and the auto-connect that waits for it.
pub mod Click
pub mod Waiting
use e_ovpn_pro.Base.{
  ℕ, ◌+◌, Bool, true, false, not, ◌&&◌, ◌||◌, Option, none, some, List, [], ◌∷◌, Text, ltb,
  if◌then◌else◌, ◌≡◌, refl, sym, ap, ◌∙◌, arith, Bool-cases, inl, inr,
}
use mathlib.Core.Path.{subst}
use e_ovpn_pro.AutoConnect.{
  CascadePhase, idle, preparing, connecting, settling, succeeded, exhausted, cancelled,
}
use e_ovpn_pro.AutoConnect.Queue.{Latencies, latency}
use e_ovpn_pro.Speed.{SpeedTestSnapshot, replace, latency_map}
use e_ovpn_pro.Speed.Best.{latency_map-replace}
use e_ovpn_pro.Cascade.State.{Env, State, emit, select_server, activated_sort, asked_speed_test}
use e_ovpn_pro.Cascade.Finish.{is_preparing}
use e_ovpn_pro.Cascade.Controller.{
  busy, toggle, start, start_with, measure_first, show_preparing, candidate_scope, cancel,
  start_from_visible_list,
}
use e_ovpn_pro.Cascade.Inactive.{IsOver, cancel_final}

-- The test's own fields, and the cascade with the window's fields that it shares.
pub record Tester : Type 0 where
  pub cascade : State
  pub speed_test_running : Bool
  -- the event that cancels the worker
  pub speed_test_cancel : Bool
  pub button_sensitive : Bool
  pub auto_select_after_test : Bool
  pub speed_snapshot : SpeedTestSnapshot
  -- the threads that were started
  pub workers : ℕ

-- `trigger_speed_test`
unfoldable pub trigger_speed_test : Tester → Tester
trigger_speed_test t =
    if t.speed_test_running
    then record t { speed_test_cancel = true; button_sensitive = false }
    else if not t.button_sensitive
    then t
    else record t {
      speed_test_cancel = false;
      speed_test_running = true;
      button_sensitive = true;
      workers = t.workers + 1;
    }

abbrev pub is_empty_map : Latencies → Bool
is_empty_map [] = true
is_empty_map (_ ∷ _) = false

-- `on_sort_toggled`
unfoldable pub on_sort_toggled : Bool → Tester → Tester
unfolding trigger_speed_test
on_sort_toggled now_active t =
    let sorted = record t { cascade = record t.cascade { sort_by_speed_active = now_active } } in
    if now_active && is_empty_map t.cascade.latencies then trigger_speed_test sorted else sorted

-- the faster of a configuration and the fastest of those after it, the earlier of two that are equal
unfoldable pub faster : Text → Option ℕ → Option (Text × ℕ) → Option (Text × ℕ)
faster name none best = best
faster name (some rtt) none = some (name, rtt)
faster name (some rtt) (some (other, best)) =
    if ltb best rtt then some (other, best) else some (name, rtt)

-- `min(valid_latencies, key=...)`
unfoldable pub fastest : Latencies → Option (Text × ℕ)
unfolding faster
fastest [] = none
fastest ((name, rtt) ∷ d) = faster name rtt (fastest d)

abbrev pub select_if_any : Option (Text × ℕ) → State → State
select_if_any none s = s
select_if_any (some (name, rtt)) s = select_server name s

-- `select_fastest`
unfoldable pub select_fastest : State → State
unfolding fastest
select_fastest s = select_if_any (fastest s.latencies) s

-- a test that was cancelled ends the run that waits for it
abbrev pub test_cancelled : Env → Tester → Tester
test_cancelled env t = record t {
  speed_test_running = false;
  cascade = if t.cascade.auto_cascade_after_test then cancel env t.cascade else t.cascade;
}

-- the results of a test that was not
abbrev pub test_finished : ℕ → Latencies → Tester → Tester
test_finished now results t = record t {
  speed_test_running = false;
  speed_snapshot = (replace now results t.speed_snapshot).0;
  cascade = record t.cascade { latencies = latency_map (replace now results t.speed_snapshot).0 };
}

unfoldable pub take_results : Env → ℕ → Latencies → Tester → Tester
take_results env now results t =
    if t.speed_test_cancel then test_cancelled env t else test_finished now results t

-- the selection that was asked for
unfoldable pub auto_select : Tester → Tester
unfolding select_fastest
auto_select t =
    if t.auto_select_after_test
    then record t { auto_select_after_test = false; cascade = select_fastest t.cascade }
    else t

-- the run that waited for the results
unfoldable pub go_on : Env → Tester → Tester
unfolding auto_select
go_on env t =
    let waiting = record t { cascade = record t.cascade { auto_cascade_after_test = false } } in
    if t.cascade.auto_cascade_after_test
    then if t.cascade.active && is_preparing t.cascade.phase
      then record waiting { cascade = start_from_visible_list env waiting.cascade }
      else auto_select waiting
    else auto_select t

-- `on_speed_test_complete`
unfoldable pub on_speed_test_complete : Env → ℕ → Latencies → Tester → Tester
unfolding take_results go_on
on_speed_test_complete env now results t =
    go_on env (record (take_results env now results t) { button_sensitive = true })

-- What `start` does when it has no measurements calls back into the window.
unfoldable pub after_toggle : State → Tester → Tester
unfolding on_sort_toggled
after_toggle s t =
    if busy t.cascade || not s.auto_cascade_after_test
    then record t { cascade = s }
    else if t.cascade.sort_by_speed_active
    then trigger_speed_test (record t { cascade = s })
    else on_sort_toggled true (record t { cascade = s })

-- `on_fastest_clicked`
unfoldable pub on_fastest_clicked : Env → Tester → Tester
unfolding after_toggle
on_fastest_clicked env t = after_toggle (toggle env t.cascade) t
