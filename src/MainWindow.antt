-- ===== src/MainWindow.antt =====
-- The connection handlers of eovpn/main_window.py: `MainWindow.on_connection_event` and what it
-- calls, automatic reconnection, and the button's `MainWindowSignals.connect`. The cascade's state
-- has the fields of the window that the cascade shares; labels, colours and toasts are left out.
pub mod Reconnect
pub mod Bounds
pub mod SpeedTest
pub mod Order
use e_ovpn_pro.Base.{
  ℕ, suc, zero, ◌+◌, ◌-◌, min, Bool, true, false, not, ◌&&◌, Option, none, some, List, [], ◌∷◌,
  ◌++◌, Text, same, ltb, is_some, if◌then◌else◌,
}
use e_ovpn_pro.Events.{
  ConnectionEvent, ConnectionEventKind, connected, disconnected, failed, progress, paused, resumed,
  Payload, normalize_connection_event,
}
use e_ovpn_pro.Cascade.State.{
  Call, returned, raised, Manager, Env, State, emit, watched, asked_disconnect, asked_cancel,
  asked_connect,
}
use e_ovpn_pro.Cascade.Controller
use e_ovpn_pro.Cascade.Controller.{cancel}

pub data Label : Type 0 where
  connect_label connecting_label disconnect_label : Label

-- what the user is told, and the address lookups
pub data Notice : Type 0 where
  told_connected told_disconnected looked_up : Notice

pub record Window : Type 0 where
  pub cascade : State
  pub was_connected : Bool
  pub connection_attempt_active : Bool
  pub label : Label
  pub monitoring : Bool
  -- what the pause button does: `resume` or `pause`
  pub offers_resume : Bool
  pub pause_visible : Bool
  pub auto_reconnect : Bool
  pub last_connected : Option Text
  pub last_connected_cursor : Option ℕ
  -- the pending sources of `trigger_reconnect`
  pub reconnects : ℕ
  pub notices : List Notice

abbrev pub notice : Notice → Window → Window
notice n w = record w { notices = w.notices ++ n ∷ [] }

abbrev pub with_manual : Bool → State → State
with_manual b s = record s { manual_disconnect = b }

abbrev pub with_progress : ℕ → State → State
with_progress n s = record s { progress_bar = n }

abbrev pub shift : Option ℕ → Option ℕ
shift none = none
shift (some i) = some (suc i)

-- `configs.index(name)`, where it is there
unfoldable pub index_of : Text → List Text → Option ℕ
index_of name [] = none
index_of name (x ∷ xs) =
    let rest = shift (index_of name xs) in if same x name then some zero else rest

abbrev pub cursor_or : Option ℕ → Option ℕ → Option ℕ
cursor_or (some i) old = some i
cursor_or none old = old

abbrev pub index_of_selected : Option Text → List Text → Option ℕ
index_of_selected none configs = none
index_of_selected (some name) configs = index_of name configs

-- `_handle_connected`; `resumable` is an OpenVPN 3 backend with a configuration path.
unfoldable pub handle_connected : Bool → Window → Window
unfolding index_of
handle_connected resumable w = record w {
  monitoring = true;
  connection_attempt_active = false;
  was_connected = true;
  label = disconnect_label;
  cascade = with_progress 100 w.cascade;
  last_connected = w.cascade.selected;
  last_connected_cursor =
      cursor_or (index_of_selected w.cascade.selected w.cascade.configs) w.last_connected_cursor;
  offers_resume = false;
  pause_visible = if resumable then true else w.pause_visible;
  notices = w.notices ++ looked_up ∷ told_connected ∷ [];
}

-- `should_reconnect` of `_handle_disconnected`
unfoldable pub should_reconnect : Window → Bool
should_reconnect w =
    w.was_connected && w.auto_reconnect && not w.cascade.manual_disconnect && not w.cascade.active

-- `_handle_disconnected`
unfoldable pub handle_disconnected : Window → Window
unfolding should_reconnect
handle_disconnected w = record w {
  monitoring = false;
  was_connected = false;
  connection_attempt_active = false;
  cascade = with_progress 0 (with_manual false w.cascade);
  label = connect_label;
  offers_resume = true;
  pause_visible = false;
  reconnects = if should_reconnect w then suc w.reconnects else w.reconnects;
  notices = w.notices ++ looked_up ∷ told_disconnected ∷ looked_up ∷ [];
}

-- A report moves the bar on, up to its end.
unfoldable pub handle_progress : Window → Window
handle_progress w =
    if ltb w.cascade.progress_bar 95
    then record w { cascade = with_progress (min 100 (w.cascade.progress_bar + 35)) w.cascade }
    else w

-- the regular transitions of `on_connection_event`
unfoldable pub regular : Bool → ConnectionEventKind → Window → Window
unfolding handle_connected handle_disconnected handle_progress
regular resumable failed w =
    handle_disconnected
      (record w { cascade = with_progress 0 w.cascade; connection_attempt_active = false })
regular resumable progress w = handle_progress w
regular resumable paused w = record w {
  offers_resume = true;
  notices = w.notices ++ looked_up ∷ [];
}
regular resumable resumed w = record w { offers_resume = false }
regular resumable connected w = handle_connected resumable w
regular resumable disconnected w = handle_disconnected w

-- The cascade has the event first; the regular handler runs unless it consumes it.
unfoldable pub after_cascade : Bool → ConnectionEvent → Window → State × Bool → Window
unfolding regular
after_cascade resumable e w (s, true) = record w { cascade = s }
after_cascade resumable e w (s, false) = regular resumable e.kind (record w { cascade = s })

-- `MainWindow.on_connection_event`, after the payload has been normalized
unfoldable pub on_connection_event : Env → Bool → ConnectionEvent → Window → Window
unfolding after_cascade
on_connection_event env resumable e w =
    after_cascade resumable e w (Controller.on_connection_event env e w.cascade)

-- `MainWindow.on_connection_event` on a backend's payload
unfoldable pub receive : Env → Bool → Payload → Option Text → Window → Window
receive env resumable result error w =
    on_connection_event env resumable (normalize_connection_event result error) w

abbrev pub tell : Window → State → Window
tell w s = record w { cascade = s }

-- `MainWindowSignals.disconnect`
unfoldable pub signals_disconnect : Window → Window
signals_disconnect w = tell w (emit asked_disconnect (with_manual true w.cascade))

-- the last part of `MainWindowSignals.connect`: the chosen configuration, if any
unfoldable pub connect_config : Option Text → Window → Window
connect_config none w = w
connect_config (some []) w = w
connect_config (some (c ∷ config)) w = record w {
  connection_attempt_active = true;
  label = connecting_label;
  cascade = emit (asked_connect (c ∷ config)) (with_progress 0 w.cascade);
}

-- after `start_watch`; an exception of `status` leaves the handler.
unfoldable pub connect_or_disconnect : Call Bool → Window → Window
unfolding signals_disconnect connect_config
connect_or_disconnect (raised _) w = w
connect_or_disconnect (returned true) w = signals_disconnect w
connect_or_disconnect (returned false) w =
    connect_config w.cascade.selected (tell w (with_manual false w.cascade))

-- from `start_watch` on, whose exception leaves the handler too
unfoldable pub watch_and_connect : Manager → Call (Unit {0}) → Window → Window
unfolding connect_or_disconnect
watch_and_connect m (raised _) w = tell w (emit watched w.cascade)
watch_and_connect m (returned _) w =
    connect_or_disconnect m.status (tell w (emit watched w.cascade))

-- the branch that takes an attempt back
unfoldable pub cancel_attempt : Manager → Window → Window
unfolding handle_disconnected
cancel_attempt m w =
    let manual = with_manual true w.cascade in
    handle_disconnected (record w {
      cascade = if m.can_cancel then emit asked_cancel manual else manual;
      connection_attempt_active = false;
    })

unfoldable pub connect_with : Env → Option Manager → Window → Window
unfolding watch_and_connect cancel_attempt
connect_with env none w = w
connect_with env (some m) w =
    if w.cascade.active
    then tell w (cancel env w.cascade)
    else if w.connection_attempt_active
    then cancel_attempt m w
    else watch_and_connect m m.start_watch w

-- `MainWindowSignals.connect`, with the selected configuration
unfoldable pub signals_connect : Env → Window → Window
unfolding connect_with
signals_connect env w = connect_with env env.manager w

-- `trigger_reconnect`; a row that is selected has a name that is not empty.
unfoldable pub trigger_reconnect : Env → Window → Window
trigger_reconnect env w = if is_some w.cascade.selected then signals_connect env w else w

-- the main loop runs a pending `trigger_reconnect`, which is then removed
unfoldable pub fire_reconnect : Env → Window → Window
unfolding trigger_reconnect
fire_reconnect env w = trigger_reconnect env (record w { reconnects = w.reconnects - 1 })
