-- ===== src/Scenarios/WindowRuns.antt =====
-- Runs of the main window: a lost connection, a late reconnection, a click while a test runs.
use e_ovpn_pro.Base.{
  suc, ◌+◌, ◌≤◌, true, false, ◌&&◌, none, some, List, [], ◌∷◌, ◌++◌, Text, codes, same,
  if◌then◌else◌, ◌≡◌, refl,
}
use e_ovpn_pro.AutoConnect.{cancelled}
use e_ovpn_pro.AutoConnect.Queue.{Latencies, named, latency, key_le}
use e_ovpn_pro.Config.Audit.{text_lt}
use e_ovpn_pro.Events.{connected, disconnected, plain}
use e_ovpn_pro.Speed.{new_snapshot}
use e_ovpn_pro.Cascade.State.{Env, Manager, State, returned, initial, watched, asked_disconnect}
use e_ovpn_pro.Cascade.Controller.{candidate_scope}
use e_ovpn_pro.Cascade.Inactive.{IsOver}
use e_ovpn_pro.MainWindow.{
  Window, connect_label, should_reconnect, on_connection_event, fire_reconnect,
}
use e_ovpn_pro.MainWindow.Reconnect.{is_loss, due, reconnects_iff, late_reconnect_disconnects}
use e_ovpn_pro.MainWindow.Bounds.{
  Step, receives, clicks, reconnects_now, steps, connections, reconnects-bound,
}
use e_ovpn_pro.MainWindow.SpeedTest.{Tester, on_fastest_clicked, on_speed_test_complete}
use e_ovpn_pro.MainWindow.SpeedTest.Click.{CanWait}
use e_ovpn_pro.MainWindow.SpeedTest.Waiting.{Started, measures_first, click_cancels_running_test}
use e_ovpn_pro.MainWindow.Order.{compare_config_names, is_smaller, list_and_queue_agree}

abbrev manager : Manager
manager = record {
  status = returned true;
  start_watch = returned tt;
  connect = λ _. returned tt;
  disconnect = returned tt;
  can_cancel = true;
}

abbrev env : Env
env = record { now = 0; wall = 0; manager = some manager; is_file = λ _. true; user_busy = false }

abbrev configs : List Text
configs = codes "a.ovpn" ∷ codes "b.ovpn" ∷ []

abbrev state : State
state = record (initial configs configs []) { selected = some (codes "a.ovpn") }

abbrev window : Window
window = record {
  cascade = state;
  was_connected = true;
  connection_attempt_active = false;
  label = connect_label;
  monitoring = true;
  offers_resume = false;
  pause_visible = false;
  auto_reconnect = true;
  last_connected = none;
  last_connected_cursor = none;
  reconnects = 0;
  notices = [];
}

reconnects_iff_example : (on_connection_event env false (plain disconnected) window).reconnects ≡ (
    if is_loss disconnected && should_reconnect window
    then suc window.reconnects
    else window.reconnects)
reconnects_iff_example = reconnects_iff env false (plain disconnected) window

abbrev history : List Step
history =
    receives env false (plain disconnected)
    ∷ clicks env
    ∷ receives env false (plain connected)
    ∷ reconnects_now env
    ∷ receives env false (plain disconnected)
    ∷ []

reconnects-bound_example : (steps history window).reconnects ≤ due window + connections history
reconnects-bound_example = reconnects-bound history window

late_reconnect_disconnects_example :
    ((fire_reconnect env window).cascade.effects
      ≡ (window.cascade.effects ++ watched ∷ []) ++ asked_disconnect ∷ [])
    × ((fire_reconnect env window).cascade.manual_disconnect ≡ true)
late_reconnect_disconnects_example =
    late_reconnect_disconnects env manager (codes "a.ovpn") window refl refl refl refl refl refl

abbrev tester : Tester
tester = record {
  cascade = state;
  speed_test_running = false;
  speed_test_cancel = false;
  button_sensitive = true;
  auto_select_after_test = false;
  speed_snapshot = new_snapshot;
  workers = 0;
}

waits : CanWait state
unfolding candidate_scope named
waits = record {
  is_idle = refl;
  first = codes "a.ovpn";
  others = codes "b.ovpn" ∷ [];
  scope = refl;
  unmeasured = refl;
}

abbrev results : Latencies
results = (codes "a.ovpn", none) ∷ (codes "b.ovpn", some 120) ∷ []

measures_first_example : Started env 9 results tester (on_fastest_clicked env tester)
measures_first_example = measures_first env tester waits env 9 results refl refl

abbrev running : Tester
running = record tester { speed_test_running = true }

click_cancels_running_test_example :
    IsOver cancelled (on_speed_test_complete env 9 results (on_fastest_clicked env running)).cascade
click_cancels_running_test_example =
    click_cancels_running_test env running waits env 9 results refl refl

list_and_queue_agree_example :
    is_smaller (compare_config_names true results (codes "a.ovpn") (codes "b.ovpn"))
    ≡ key_le (latency results (codes "a.ovpn")) 0 (latency results (codes "b.ovpn")) 1
unfolding same text_lt
list_and_queue_agree_example =
    list_and_queue_agree results b'a' b'b' (codes ".ovpn") (codes ".ovpn") 0 1 refl refl
