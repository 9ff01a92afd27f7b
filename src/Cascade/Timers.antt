-- ===== src/Cascade/Timers.antt =====
-- The timers and the banner of `CascadeController` in eovpn/cascade_controller.py. A method takes the answers of the environment
-- and the state, and returns the state that it leaves; labels, tooltips, style classes and spinners
-- are left out.
use e_ovpn_pro.Base.{
  ℕ, ◌-◌, ◌/◌, max, Bool, false, Option, none, some, [], ◌∷◌, Text, same, length, if◌then◌else◌,
}
use e_ovpn_pro.Base.Int.{pos}
use e_ovpn_pro.AutoConnect.Timeout.{compute_attempt_timeout}
use e_ovpn_pro.AutoConnect.Queue.{latency}
use e_ovpn_pro.Cascade.Progress.{cascade_progress_fraction}
use e_ovpn_pro.Cascade.State.{
  returned, raised, Manager, Env, run_timeout, run_tick, run_settle, State, drop_source, add_source,
  select_server,
}

-- `cm is not None and cm.status()`, where an exception counts as no.
unfoldable pub is_connected : Option Manager → Bool
is_connected none = false
is_connected (some m) = elim m.status [ returned b ↦ b | raised _ ↦ false ]

unfoldable pub rtt_of : State → Text → Option ℕ
rtt_of s name = latency s.latencies name

unfoldable pub attempt_timeout : State → Text → ℕ
attempt_timeout s name = elim (latency s.latencies name) [
  | none ↦ compute_attempt_timeout none
  | some rtt ↦ compute_attempt_timeout (some (pos rtt))
]

-- `self.current or ""`
abbrev pub current_name : Option Text → Text
current_name none = []
current_name (some name) = name

-- `_disarm_timers`
unfoldable pub disarm_timers : State → State
disarm_timers s = record s {
  sources = drop_source s.settle_id (drop_source s.tick_id (drop_source s.timeout_id s.sources));
  timeout_id = none;
  tick_id = none;
  settle_id = none;
}

unfoldable pub reselect : Text → Option Text → State → State
reselect [] selected s = s
reselect (c ∷ name) none s = select_server (c ∷ name) s
reselect (c ∷ name) (some other) s = if same other (c ∷ name) then s else select_server (c ∷ name) s

-- `_update_banner`: the candidate's row is selected again, and the bar is set.
unfoldable pub update_banner : Env → State → State
unfolding reselect
update_banner env s =
    let name = current_name s.current in
    let budget = attempt_timeout s name in
    let elapsed = budget - (s.deadline - env.now) in
    record (reselect name s.selected s) {
      cascade_bar = cascade_progress_fraction s.index (max 1 (length s.queue)) elapsed budget;
    }

-- `_arm_timeout_and_ticks`
unfoldable pub arm_timeout_and_ticks : Env → State → State
arm_timeout_and_ticks env s =
    let quiet = disarm_timers s in
    let remaining_ms = max 250 ((s.deadline - env.now) / 1_000) in
    let timed = add_source remaining_ms (run_timeout s.gen) quiet in
    record (add_source 100 (run_tick s.gen) timed) {
      timeout_id = some quiet.next_source;
      tick_id = some timed.next_source;
    }

-- `_arm_settle`; its callback is always `_try_current_server`.
unfoldable pub arm_settle : State → State
arm_settle s =
    let quiet = record s { sources = drop_source s.settle_id s.sources; settle_id = none } in
    record (add_source 550 (run_settle s.gen) quiet) { settle_id = some s.next_source }
