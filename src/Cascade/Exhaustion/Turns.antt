-- ===== src/Cascade/Exhaustion/Turns.antt =====
-- One turn of a run in which no server answers: the timeout of an attempt, and the settle timer.
use mathlib.Core.Path.{ap₂}
use e_ovpn_pro.Base.{
  codes, ℕ, suc, true, false, Option, none, some, List, [], ◌∷◌, ◌++◌, ◌≡◌, ◌∙◌, Text, get_elem?,
  arith,
}
use e_ovpn_pro.AutoConnect.{connecting, settling, exhausted}
use e_ovpn_pro.Cascade.Attempt.{Tag, new_attempt}
use e_ovpn_pro.Cascade.Attempt
use e_ovpn_pro.Cascade.State.{asked_connect, watched, Env, Manager, State, emit}
use e_ovpn_pro.Cascade.Walk.{message_or, try_server, on_timeout, on_settle, start_attempt}
use e_ovpn_pro.Cascade.Frames.{emit-Framed}
use e_ovpn_pro.Cascade.Inactive.{finish-IsOver}
use e_ovpn_pro.Cascade.Exhaustion.{
  IsQuiet, Walks, on_timeout-advance, not_stale, advance-Advanced, on_settle-live, try_current-some,
  quiet-connects, start_attempt-Framed, open_attempt-fields, finish-fields,
}

module _ (g : ℕ) (q : List Text) where
  -- an attempt is given up at its timeout
  pub timeout-Walks :
      (env : Env) (i : ℕ) (c : ℕ) (name : Text) (fs : List (Text × Tag)) (s : State)
      → env.user_busy ≡ false
      → Walks true connecting g q i (some (c ∷ name)) fs s
      → Walks true settling g q
          (suc i)
          (some (c ∷ name))
          (fs ++ (c ∷ name, Attempt.timeout) ∷ [])
          (on_timeout env g s).0
  timeout-Walks env i c name fs s free w =
      let waiting : State = record s { timeout_id = none } in
      let message = message_or s.pending_failure_message (codes "Handshake timeout expired.") in
      rw (on_timeout-advance env g s (not_stale g s w.active_eq w.gen_eq) free) (
        ground (
          arith,
          advance-Advanced env Attempt.timeout (some Attempt.timeout) (some message) c name waiting
              w.active_eq w.current_eq,
        ))

  -- the next server is tried
  pub settle-Walks :
      (env : Env) (m : Manager) (i : ℕ) (old : Option Text) (name : Text) (fs : List (Text × Tag))
      (s : State)
      → IsQuiet env m
      → get_elem? q i ≡ some name
      → Walks true settling g q i old fs s
      → Walks true connecting g q i (some name) fs (on_settle env g s).0
  settle-Walks env m i old name fs s quiet e w =
      let forgotten : State = record s { settle_id = none } in
      let started = start_attempt env name forgotten in
      rw
        (
          on_settle-live env g s (not_stale g s w.active_eq w.gen_eq),
          try_current-some env (some name) forgotten w.active_eq
              (ap₂ get_elem? w.queue_eq w.index_eq ∙ e),
          quiet-connects env m name forgotten quiet,
        )
        (ground (
          arith,
          start_attempt-Framed env name forgotten,
          open_attempt-fields env name forgotten,
          emit-Framed watched started,
          emit-Framed (asked_connect name)
              (record (emit watched started) { disconnect_retries = 0 }),
        ))

  -- the end of the queue
  pub settle-exhausted :
      (env : Env) (i : ℕ) (old : Option Text) (fs : List (Text × Tag)) (s : State)
      → get_elem? q i ≡ none
      → Walks true settling g q i old fs s
      → Walks false exhausted g q i old fs (on_settle env g s).0
  settle-exhausted env i old fs s e w =
      let forgotten : State = record s { settle_id = none } in
      rw
        (
          on_settle-live env g s (not_stale g s w.active_eq w.gen_eq),
          try_current-some env none forgotten w.active_eq (ap₂ get_elem? w.queue_eq w.index_eq ∙ e),
        )
        (unfold try_server in
          ground (
            arith,
            finish-IsOver env exhausted true forgotten,
            finish-fields env exhausted true forgotten,
          ))
