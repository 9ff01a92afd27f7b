-- ===== src/MainWindow/Reconnect.antt =====
-- Automatic reconnection in eovpn/main_window.py: when it is scheduled, and what it does.
use e_ovpn_pro.Base.{
  ℕ, suc, ◌+◌, ◌-◌, ◌≤◌, Bool, true, false, not, ◌&&◌, some, [], ◌∷◌, ◌++◌, Text, if◌then◌else◌,
  is_some, ◌≡◌, refl, sym, ap, ◌∙◌, arith, Bool-cases, inl, inr,
}
use e_ovpn_pro.Events.{
  ConnectionEvent, ConnectionEventKind, connected, disconnected, failed, progress, paused, resumed,
}
use e_ovpn_pro.Cascade.State.{returned, Manager, Env, State, emit, watched, asked_disconnect}
use e_ovpn_pro.Cascade.Controller
use e_ovpn_pro.Cascade.Events.{passes, consumed_iff}
use e_ovpn_pro.Cascade.Inactive.{inactive-event}
use e_ovpn_pro.MainWindow.{
  Window, tell, should_reconnect, handle_connected, handle_disconnected, handle_progress, regular,
  after_cascade, on_connection_event, signals_disconnect, connect_or_disconnect, watch_and_connect,
  cancel_attempt, connect_with, signals_connect, trigger_reconnect, fire_reconnect,
}

-- the events that end a connection
abbrev pub is_loss : ConnectionEventKind → Bool
is_loss failed = true
is_loss disconnected = true
is_loss _ = false

abbrev pub is_connected_event : ConnectionEventKind → Bool
is_connected_event connected = true
is_connected_event _ = false

-- the reconnections that are pending, and the one that a loss would bring
abbrev pub count : Bool → ℕ
count true = 1
count false = 0

unfoldable pub due : Window → ℕ
due w = w.reconnects + count w.was_connected

pub disconnected-due : (w : Window) → due (handle_disconnected w) ≤ due w
unfolding due handle_disconnected should_reconnect
disconnected-due w = ground arith

regular-due :
    (resumable : Bool) (k : ConnectionEventKind) (w : Window)
    → due (regular resumable k w) ≤ due w + count (is_connected_event k)
unfolding regular due handle_connected handle_progress
regular-due resumable connected w = ground arith
regular-due resumable disconnected w = let e = disconnected-due w in unfold due in omega arith
regular-due resumable failed w =
    let w' = record w {
      cascade = record w.cascade { progress_bar = 0 };
      connection_attempt_active = false;
    } in
    let e = disconnected-due w' in omega arith
regular-due resumable progress w = ground arith
regular-due resumable paused w = ground arith
regular-due resumable resumed w = ground arith

pub cascade-due :
    (resumable : Bool) (e : ConnectionEvent) (w : Window) (r : State × Bool)
    → due (after_cascade resumable e w r) ≤ due w + count (is_connected_event e.kind)
unfolding after_cascade due
cascade-due resumable e w (s, true) = unfold due in ground arith
cascade-due resumable e w (s, false) = regular-due resumable e.kind (record w { cascade = s })

regular-reconnects :
    (resumable : Bool) (k : ConnectionEventKind) (w : Window)
    → (regular resumable k w).reconnects
      ≡ (if is_loss k && should_reconnect w then suc w.reconnects else w.reconnects)
unfolding regular handle_connected handle_disconnected handle_progress should_reconnect
regular-reconnects resumable connected w = refl
regular-reconnects resumable disconnected w = refl
regular-reconnects resumable failed w = refl
regular-reconnects resumable progress w = ground arith
regular-reconnects resumable paused w = refl
regular-reconnects resumable resumed w = refl

not_loss : (k : ConnectionEventKind) → not (passes k) ≡ false → is_loss k ≡ false
not_loss connected h = refl
not_loss disconnected h = h
not_loss failed h = h
not_loss progress h = refl
not_loss paused h = refl
not_loss resumed h = refl

cascade-reconnects :
    (resumable : Bool) (e : ConnectionEvent) (w : Window) (r : State × Bool)
    → r.1 ≡ not (passes e.kind)
    → (after_cascade resumable e w r).reconnects ≡ w.reconnects
unfolding after_cascade
cascade-reconnects resumable e w (s, true) h = refl
cascade-reconnects resumable e w (s, false) h =
    regular-reconnects resumable e.kind (record w { cascade = s })
    ∙ ap
        (λ (b : Bool).
          if b && should_reconnect (record w { cascade = s })
          then suc w.reconnects
          else w.reconnects)
        (not_loss e.kind (sym h))

-- An event schedules a reconnection exactly when it ends a connection that was up, the setting is on,
-- the user did not ask for the end, and no cascade runs; no other event does.
pub reconnects_iff :
    (env : Env) (resumable : Bool) (e : ConnectionEvent) (w : Window)
    → (on_connection_event env resumable e w).reconnects
      ≡ (if is_loss e.kind && should_reconnect w then suc w.reconnects else w.reconnects)
unfolding on_connection_event after_cascade
reconnects_iff env resumable e w = elim (Bool-cases w.cascade.active) [
  | inr a ↦
      ap (λ r. (after_cascade resumable e w r).reconnects) (inactive-event env e w.cascade a)
      ∙ regular-reconnects resumable e.kind w
  | inl a ↦
      cascade-reconnects resumable e w (Controller.on_connection_event env e w.cascade)
        (consumed_iff env e w.cascade ∙ ap (λ b. b && not (passes e.kind)) a)
      ∙ unfold should_reconnect in ground arith
]

pub up :
    (m : Manager) (v : Window)
    → m.start_watch ≡ returned tt
    → m.status ≡ returned true
    → watch_and_connect m m.start_watch v ≡ signals_disconnect (tell v (emit watched v.cascade))
unfolding watch_and_connect connect_or_disconnect
up m v h h' =
    ap (λ r. watch_and_connect m r v) h
    ∙ ap (λ r. connect_or_disconnect r (tell v (emit watched v.cascade))) h'

-- A pending reconnection does not look at what has happened since: where the user has connected
-- again, with a manager that answers, a server selected and no cascade or attempt going on, it asks
-- for the end of the new connection.
pub late_reconnect_disconnects :
    (env : Env) (m : Manager) (name : Text) (w : Window)
    → env.manager ≡ some m
    → m.start_watch ≡ returned tt
    → m.status ≡ returned true
    → w.cascade.active ≡ false
    → w.connection_attempt_active ≡ false
    → w.cascade.selected ≡ some name
    → ((fire_reconnect env w).cascade.effects
        ≡ (w.cascade.effects ++ watched ∷ []) ++ asked_disconnect ∷ [])
      × ((fire_reconnect env w).cascade.manual_disconnect ≡ true)
unfolding fire_reconnect trigger_reconnect signals_connect connect_with emit signals_disconnect
late_reconnect_disconnects env m name w h h' h'' a a' sel =
    let w' = record w { reconnects = w.reconnects - 1 } in
    let done =
      ap (λ o. if is_some o then signals_connect env w' else w') sel
      ∙ ap (λ o. connect_with env o w') h
      ∙ ap
          (λ (b : Bool).
            if b
            then tell w' (Controller.cancel env w.cascade)
            else if w.connection_attempt_active
            then cancel_attempt m w'
            else watch_and_connect m m.start_watch w')
          a
      ∙ ap (λ (b : Bool). if b then cancel_attempt m w' else watch_and_connect m m.start_watch w')
          a'
      ∙ up m w' h' h'' in
    (ap (λ v. v.cascade.effects) done, ap (λ v. v.cascade.manual_disconnect) done)
