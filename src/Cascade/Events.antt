-- ===== src/Cascade/Events.antt =====
-- How a running cascade of eovpn/cascade_controller.py answers the events of the backend.
use e_ovpn_pro.Base.{
  ℕ, Bool, true, false, not, ◌&&◌, Option, none, some, ◌∷◌, ◌≡◌, refl, arith, Text, lower,
}
use e_ovpn_pro.AutoConnect.{CascadePhase, connecting, settling, succeeded}
use e_ovpn_pro.Events.{
  ConnectionEvent, ConnectionEventKind, connected, disconnected, failed, progress, paused, resumed,
}
use e_ovpn_pro.Cascade.State.{Env, State}
use e_ovpn_pro.Cascade.Timers.{current_name}
use e_ovpn_pro.Cascade.Walk.{advance}
use e_ovpn_pro.Cascade.Controller.{
  on_connection_event, handle_event, on_lost, on_failure, failure_reason,
  is_definitive_backend_failure, is_error,
}
use e_ovpn_pro.Cascade.Inactive.{IsOver, finish-IsOver}
use e_ovpn_pro.Cascade.Exhaustion.{Advanced, advance-Advanced}

abbrev pub passes : ConnectionEventKind → Bool
passes connected = true
passes paused = true
passes resumed = true
passes _ = false

on_lost-consumes :
    (p : CascadePhase) (env : Env) (error : Option Text) (s : State)
    → (on_lost p env error s).1 ≡ true
unfolding on_lost on_failure
on_lost-consumes settling env error s = ground arith
on_lost-consumes connecting env error s = ground arith
on_lost-consumes _ env error s = refl

consumes :
    (env : Env) (k : ConnectionEventKind) (error : Option Text) (s : State)
    → (handle_event k env error s).1 ≡ not (passes k)
unfolding handle_event
consumes env connected error s = refl
consumes env failed error s = on_lost-consumes s.phase env error s
consumes env disconnected error s = on_lost-consumes s.phase env error s
consumes env progress error s = refl
consumes env paused error s = refl
consumes env resumed error s = refl

-- The window's own handler is skipped exactly when a cascade runs and the event is a failure, a loss
-- or a progress report.
pub consumed_iff :
    (env : Env) (e : ConnectionEvent) (s : State)
    → (on_connection_event env e s).1 ≡ (s.active && not (passes e.kind))
unfolding on_connection_event
consumed_iff env e s = ground (arith, consumes env e.kind e.error s)

abbrev pub event : ConnectionEventKind → Option Text → ConnectionEvent
event k error = record { kind = k; error = error; detail = none }

-- A connection ends a running cascade as a success, whatever it was doing.
pub connected-IsOver :
    (env : Env) (error : Option Text) (s : State)
    → s.active ≡ true
    → IsOver succeeded (on_connection_event env (event connected error) s).0
unfolding on_connection_event handle_event
connected-IsOver env error s on = simp on (finish-IsOver env succeeded false _)

-- A disconnection that a settling cascade expects changes nothing but two flags: it is no longer
-- expected, and counts as wanted, so that the window does not reconnect.
pub expected_loss :
    (env : Env) (error : Option Text) (s : State)
    → s.active ≡ true
    → s.phase ≡ settling
    → s.expect_disconnect ≡ true
    → (on_connection_event env (event disconnected error) s).0
      ≡ record s { expect_disconnect = false; manual_disconnect = true }
unfolding on_connection_event handle_event on_lost
expected_loss env error s on p expected = simp (on, p, expected)

-- a failure that ends the attempt: none given, an authentication failure, or a definitive marker
abbrev pub is_final : Option Text → Bool
is_final error = not (
    is_error (failure_reason (current_name error))
    && not (is_definitive_backend_failure (lower (current_name error))))

not-true : (b : Bool) → not b ≡ true → b ≡ false
not-true b h = ground arith

on_failure-advances :
    (env : Env) (error : Option Text) (s : State)
    → is_final error ≡ true
    → let reason = failure_reason (current_name error) in
      (on_failure env error s).0 ≡ advance env reason (some reason) error s
unfolding on_failure
on_failure-advances env error s h = rw (not-true _ h) refl

module _ (env : Env) (error : Option Text) (s : State) (on : s.active ≡ true)
    (p : s.phase ≡ connecting) where
  lost : (on_connection_event env (event failed error) s).0 ≡ (on_failure env error s).0
  unfolding on_connection_event handle_event on_lost
  lost = simp (on, p)

  -- While a cascade waits for a connection to a named server, a definitive failure gives the
  -- attempt up at once, with its reason.
  pub final_failure_advances :
      (c : ℕ) (name : Text)
      → s.current ≡ some (c ∷ name)
      → is_final error ≡ true
      → Advanced
          (c ∷ name)
          (failure_reason (current_name error))
          s
          (on_connection_event env (event failed error) s).0
  final_failure_advances c name at final =
      rw (lost, on_failure-advances env error s final)
        (advance-Advanced env _ (some (failure_reason (current_name error))) error c name s on at)
