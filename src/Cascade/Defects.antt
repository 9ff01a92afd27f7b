-- ===== src/Cascade/Defects.antt =====
-- Three ways in which the timers of eovpn/cascade_controller.py do other than they are meant to.
use mathlib.Core.Path.{ap₂}
use e_ovpn_pro.Base.{
  length-append, ℕ, ◌+◌, ◌<◌, ◌≤◌, true, false, none, some, [], ◌∷◌, ◌++◌, ◌≡◌, ◌≢◌, refl, ap, ◌∙◌,
  arith, Text, codes, length, get_elem?,
}
use e_ovpn_pro.AutoConnect.{settling}
use e_ovpn_pro.Cascade.Attempt.{Tag, new_attempt}
use e_ovpn_pro.Cascade.Attempt
use e_ovpn_pro.Cascade.State.{
  Env, Manager, returned, State, run_timeout, emit, watched, asked_disconnect,
}
use e_ovpn_pro.Cascade.Timers.{attempt_timeout, arm_settle}
use e_ovpn_pro.Cascade.Frames.{emit-Framed, arm_settle-Framed}
use e_ovpn_pro.Cascade.Walk.{
  advance, on_timeout, on_tick, is_stale, try_current_server, try_server, use_manager,
  retry_disconnect, start_attempt, open_attempt, message_or,
}
use e_ovpn_pro.Cascade.Loop.{find_source}
use e_ovpn_pro.Cascade.Exhaustion.{
  Advanced, advance-Advanced, on_timeout-advance, not_stale, try_current-some, start_attempt-Framed,
  open_attempt-fields,
}
use e_ovpn_pro.Cascade.Sources.{on_tick-due, advance-keeps}

-- While no dialog is open, a live timeout gives the attempt up also when the deadline, which the
-- ticks move on while a dialog is open, has not been reached.
pub timeout_ignores_deadline :
    (env : Env) (c : ℕ) (name : Text) (s : State)
    → s.active ≡ true
    → s.current ≡ some (c ∷ name)
    → env.user_busy ≡ false
    → env.now < s.deadline
    → Advanced (c ∷ name) Attempt.timeout s (on_timeout env s.gen s).0
timeout_ignores_deadline env c name s on at free early =
    let waiting : State = record s { timeout_id = none } in
    let message = message_or s.pending_failure_message (codes "Handshake timeout expired.") in
    rw (on_timeout-advance env s.gen s (not_stale s.gen s on refl) free) (
      ground (
        arith,
        advance-Advanced env Attempt.timeout (some Attempt.timeout) (some message) c name waiting on
            at,
      ))

-- A backend that still is connected, raises nothing and does what it is told later.
pub record StillConnected (env : Env) (m : Manager) : Type 0 where
  pub manager : env.manager ≡ some m
  pub status : m.status ≡ returned true
  pub watch : m.start_watch ≡ returned tt
  pub told : m.disconnect ≡ returned tt

-- the state in which the controller waits for the disconnection
abbrev retrying : State → State
retrying s = emit asked_disconnect (record (emit watched s) {
  disconnect_retries = (emit watched s).disconnect_retries + 1;
  expect_disconnect = true;
  manual_disconnect = true;
  phase = settling;
})

retrying-fields :
    (s : State)
    → let t = retrying s in
      (t.attempts ≡ s.attempts)
      × (t.active_attempt ≡ s.active_attempt)
      × (t.phase ≡ settling)
      × (t.index ≡ s.index)
      × (t.queue ≡ s.queue)
      × (t.active ≡ s.active)
      × (t.disconnect_retries ≡ s.disconnect_retries + 1)
unfolding emit
retrying-fields s = ground arith

opened_attempts :
    (env : Env) (name : Text) (s : State)
    → let t = open_attempt env name s in
      (t.attempts ≡ s.attempts ++ new_attempt name env.wall (attempt_timeout s name) ∷ [])
      × (t.active_attempt ≡ some (length s.attempts))
      × (t.disconnect_retries ≡ s.disconnect_retries)
unfolding open_attempt
opened_attempts env name s = (refl, refl, refl)

still-retries :
    (env : Env) (m : Manager) (name : Text) (s : State)
    → StillConnected env m
    → s.disconnect_retries < 3
    → try_server env (some name) s ≡ arm_settle (retrying (start_attempt env name s))
unfolding try_server use_manager retry_disconnect
still-retries env m name s still few =
    let framed = start_attempt-Framed env name s in
    ground
      (arith, framed, opened_attempts env name s, emit-Framed watched (start_attempt env name s))

-- While the backend is still connected, trying a server opens an attempt, and leaves it pending.
retry_opens :
    (env : Env) (m : Manager) (name : Text) (s : State)
    → StillConnected env m
    → s.active ≡ true
    → get_elem? s.queue s.index ≡ some name
    → s.disconnect_retries < 3
    → let t = try_current_server env s in
      (t.attempts ≡ s.attempts ++ new_attempt name env.wall (attempt_timeout s name) ∷ [])
      × (t.active_attempt ≡ some (length s.attempts))
      × (t.phase ≡ settling)
      × (t.index ≡ s.index)
      × (t.queue ≡ s.queue)
      × (t.active ≡ true)
      × (t.disconnect_retries ≡ s.disconnect_retries + 1)
retry_opens env m name s still on e few =
    let started = start_attempt env name s in
    let framed = start_attempt-Framed env name s in
    let opened = open_attempt-fields env name s in
    let waiting = retrying started in
    rw (try_current-some env (some name) s on e, still-retries env m name s still few)
      (ground (
        arith,
        framed,
        opened_attempts env name s,
        opened,
        retrying-fields started,
        arm_settle-Framed waiting,
      ))

-- When the backend still is connected at two tries in a row, and the limit of retries is not
-- reached, the server has two new attempts, as they were opened; only the second is the active one.
pub retry_leaves_pending :
    (env later : Env) (m n : Manager) (name : Text) (s : State)
    → StillConnected env m
    → StillConnected later n
    → s.active ≡ true
    → get_elem? s.queue s.index ≡ some name
    → s.disconnect_retries < 2
    → let t = try_current_server later (try_current_server env s) in
      (t.attempts
        ≡ (s.attempts ++ new_attempt name env.wall (attempt_timeout s name) ∷ [])
          ++ new_attempt name later.wall (attempt_timeout (try_current_server env s) name) ∷ [])
      × (t.active_attempt ≡ some (length s.attempts + 1))
retry_leaves_pending env later m n name s still again on e few =
    let first = retry_opens env m name s still on e (omega arith) in
    let t = try_current_server env s in
    let second =
      retry_opens later n name t again first.5 (ap₂ get_elem? first.4 first.3 ∙ e) (omega arith) in
    (
      second.0 ∙ ap (λ xs. xs ++ new_attempt name later.wall (attempt_timeout t name) ∷ []) first.0,
      second.1 ∙ ap some (ap (length {0}) first.0 ∙ length-append s.attempts _ ∙ omega arith),
    )

-- While no dialog is open, a tick at or after the deadline gives the attempt up and leaves its
-- pending timeout: when that source fires before the settle time is over, the next server is passed
-- over, untried, and the first is counted as timed out twice.
pub late_tick_skips_a_server :
    (env later : Env) (c i j : ℕ) (name : Text) (s : State)
    → s.active ≡ true
    → s.current ≡ some (c ∷ name)
    → s.deadline ≤ env.now
    → env.user_busy ≡ false
    → later.user_busy ≡ false
    → s.timeout_id ≡ some i
    → s.tick_id ≡ some j
    → s.settle_id ≡ none
    → i ≢ j
    → find_source i s.sources ≡ some (run_timeout s.gen)
    → let t = (on_tick env s.gen s).0 in
      let u = (on_timeout later s.gen t).0 in
      (find_source i t.sources ≡ some (run_timeout s.gen))
      × (t.index ≡ s.index + 1)
      × (u.index ≡ s.index + 2)
      × (u.failures
          ≡ (s.failures ++ (c ∷ name, Attempt.timeout) ∷ []) ++ (c ∷ name, Attempt.timeout) ∷ [])
late_tick_skips_a_server env later c i j name s on at due free free' armed tick settle ne pending =
    let message = message_or s.pending_failure_message (codes "Handshake timeout expired.") in
    let waiting : State = record s { timeout_id = none } in
    let t = advance env Attempt.timeout (some Attempt.timeout) (some message) waiting in
    let first =
      advance-Advanced env Attempt.timeout (some Attempt.timeout) (some message) c name waiting on
        at in
    let message' = message_or t.pending_failure_message (codes "Handshake timeout expired.") in
    let second =
      advance-Advanced later Attempt.timeout (some Attempt.timeout) (some message') c name
        (record t { timeout_id = none }) first.active first.current in
    let same_gen : is_stale s.gen t ≡ false = not_stale s.gen t first.active first.gen in
    rw
      (
        on_tick-due env s on due free,
        on_timeout-advance env s.gen s (not_stale s.gen s on refl) free,
      )
      (
        advance-keeps env Attempt.timeout (some Attempt.timeout) (some message) i j _ waiting on
            refl tick settle ne pending,
        first.index,
        rw (on_timeout-advance later s.gen t same_gen free')
            (omega (arith, first.index, second.index)),
        rw (on_timeout-advance later s.gen t same_gen free')
            (second.failures ∙ ap (λ xs. xs ++ (c ∷ name, Attempt.timeout) ∷ []) first.failures),
      )
