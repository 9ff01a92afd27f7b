-- ===== src/MainWindow/Bounds.antt =====
-- The reconnections that eovpn/main_window.py has pending, over a run of the window.
use e_ovpn_pro.Base.{
  ℕ, ◌+◌, ◌-◌, ◌≤◌, Bool, true, false, Option, none, some, List, [], ◌∷◌, Text, if◌then◌else◌,
  is_some, ◌≡◌, refl, arith,
}
use e_ovpn_pro.Events.{ConnectionEvent}
use e_ovpn_pro.Cascade.State.{
  Call, returned, raised, Manager, Env, State, emit, watched, asked_cancel,
}
use e_ovpn_pro.Cascade.Controller
use e_ovpn_pro.MainWindow.{
  Window, tell, with_manual, on_connection_event, signals_disconnect, connect_or_disconnect,
  watch_and_connect, connect_config, cancel_attempt, connect_with, signals_connect,
  trigger_reconnect, fire_reconnect,
}
use e_ovpn_pro.MainWindow.Reconnect.{is_connected_event, count, due, disconnected-due, cascade-due}

-- What may happen to the window, one after the other: an event of the backend, a click on the button, the
-- time of a pending reconnection, and any change of the cascade's own.
pub data Step : Type 0 where
  receives : Env → Bool → ConnectionEvent → Step
  clicks : Env → Step
  reconnects_now : Env → Step
  cascade_becomes : State → Step

unfoldable pub step : Step → Window → Window
step (receives env resumable e) w = on_connection_event env resumable e w
step (clicks env) w = signals_connect env w
step (reconnects_now env) w = fire_reconnect env w
step (cascade_becomes s) w = tell w s

unfoldable pub steps : List Step → Window → Window
unfolding step
steps [] w = w
steps (x ∷ xs) w = steps xs (step x w)

abbrev pub connection : Step → ℕ
connection (receives env resumable e) = count (is_connected_event e.kind)
connection _ = 0

-- how many connections the steps have
abbrev pub connections : List Step → ℕ
connections [] = 0
connections (x ∷ xs) = connection x + connections xs

config-due : (config : Option Text) (w : Window) → due (connect_config config w) ≡ due w
unfolding connect_config due
config-due none w = refl
config-due (some []) w = refl
config-due (some (c ∷ config)) w = refl

status-due : (status : Call Bool) (w : Window) → due (connect_or_disconnect status w) ≡ due w
unfolding connect_or_disconnect signals_disconnect due
status-due (raised e) w = refl
status-due (returned true) w = refl
status-due (returned false) w = config-due w.cascade.selected (tell w (with_manual false w.cascade))

watch-due :
    (m : Manager) (watch : Call (Unit {0})) (w : Window) → due (watch_and_connect m watch w) ≡ due w
unfolding watch_and_connect due
watch-due m (raised e) w = refl
watch-due m (returned u) w = status-due m.status (tell w (emit watched w.cascade))

if-due : (c : Bool) (x y : Window) {n : ℕ} → due x ≤ n → due y ≤ n → due (if c then x else y) ≤ n
if-due true x y h h' = h
if-due false x y h h' = h'

cancelled-due : (m : Manager) (w : Window) → due (cancel_attempt m w) ≤ due w
unfolding cancel_attempt due
cancelled-due m w = disconnected-due (record w {
  cascade =
      if m.can_cancel
      then emit asked_cancel (with_manual true w.cascade)
      else with_manual true w.cascade;
  connection_attempt_active = false;
})

connect-due : (env : Env) (m : Option Manager) (w : Window) → due (connect_with env m w) ≤ due w
unfolding connect_with due
connect-due env none w = omega arith
connect-due env (some m) w =
    if-due w.cascade.active (tell w (Controller.cancel env w.cascade))
      (if w.connection_attempt_active
        then cancel_attempt m w
        else watch_and_connect m m.start_watch w)
      (omega arith)
      (if-due w.connection_attempt_active (cancel_attempt m w) (watch_and_connect m m.start_watch w)
        (cancelled-due m w) (let e = watch-due m m.start_watch w in omega arith))

click-due : (env : Env) (w : Window) → due (signals_connect env w) ≤ due w
unfolding signals_connect
click-due env w = connect-due env env.manager w

fire-due : (env : Env) (w : Window) → due (fire_reconnect env w) ≤ due w
unfolding fire_reconnect trigger_reconnect
fire-due env w =
    let w' = record w { reconnects = w.reconnects - 1 } in
    let less : due w' ≤ due w = unfold due in omega arith in
    let e = click-due env w' in
    if-due (is_some w.cascade.selected) (signals_connect env w') w' (omega arith) less

step-due : (x : Step) (w : Window) → due (step x w) ≤ due w + connection x
unfolding step on_connection_event
step-due (receives env resumable e) w =
    cascade-due resumable e w (Controller.on_connection_event env e w.cascade)
step-due (clicks env) w = let e = click-due env w in omega arith
step-due (reconnects_now env) w = let e = fire-due env w in omega arith
step-due (cascade_becomes s) w = unfold due in omega arith

-- Whatever the events, clicks and timers, and in whatever order, the pending reconnections are at
-- most those pending at the start, one more if a connection was up then, and one for each
-- connection made since.
pub reconnects-bound :
    (xs : List Step) (w : Window) → (steps xs w).reconnects ≤ due w + connections xs
unfolding steps
reconnects-bound [] w = unfold due in omega arith
reconnects-bound (x ∷ xs) w =
    let rest = reconnects-bound xs (step x w) in let e = step-due x w in omega arith
