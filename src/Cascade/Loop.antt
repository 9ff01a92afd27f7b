-- ===== src/Cascade/Loop.antt =====
-- The main loop around the controller of eovpn/cascade_controller.py: the sources of
-- eovpn/timers.py that fire, the events of the backend, and the calls of the window.
use e_ovpn_pro.Base.{ℕ, Bool, true, false, Option, none, some, List, [], ◌∷◌, ◌==◌, if◌then◌else◌}
use e_ovpn_pro.Events.{ConnectionEvent}
use e_ovpn_pro.Cascade.State.{
  Env, Callback, run_timeout, run_tick, run_settle, hide_banner, Source, State, drop_source,
}
use e_ovpn_pro.Cascade.Finish.{on_hide_banner}
use e_ovpn_pro.Cascade.Walk.{on_timeout, on_tick, on_settle}
use e_ovpn_pro.Cascade.Controller.{on_connection_event}

unfoldable pub run_callback : Env → Callback → State → State × Bool
run_callback env (run_timeout gen) s = on_timeout env gen s
run_callback env (run_tick gen) s = on_tick env gen s
run_callback env (run_settle gen) s = on_settle env gen s
run_callback env (hide_banner gen) s = on_hide_banner gen s

unfoldable pub find_source : ℕ → List Source → Option Callback
find_source i [] = none
find_source i (x ∷ sources) = if x.id == i then some x.callback else find_source i sources

-- A callback that returns false is not called again.
abbrev pub settle_source : ℕ → State × Bool → State
settle_source i (s, true) = s
settle_source i (s, false) = record s { sources = drop_source (some i) s.sources }

unfoldable pub fire_found : Env → ℕ → Option Callback → State → State
fire_found env i none s = s
fire_found env i (some callback) s = settle_source i (run_callback env callback s)

-- The loop dispatches the source with this id, if it is still pending.
unfoldable pub fire : Env → ℕ → State → State
unfolding fire_found
fire env i s = fire_found env i (find_source i s.sources) s

-- What reaches the controller without the user: a source that is due, or an event.
pub data Input : Type 0 where
  fires : ℕ → Input
  receives : ConnectionEvent → Input

unfoldable pub step : Env → Input → State → State
step env (fires i) s = fire env i s
step env (receives e) s = (on_connection_event env e s).0

-- Each input comes with what the environment answers at its time.
unfoldable pub run : List (Env × Input) → State → State
run [] s = s
run ((env, input) ∷ inputs) s = run inputs (step env input s)
