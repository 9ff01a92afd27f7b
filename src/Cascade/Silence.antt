-- ===== src/Cascade/Silence.antt =====
-- A cascade in which no server answers asks for each server of its queue once, and ends.
pub mod Turns
use mathlib.Core.List.{append_assoc, append-nil}
use mathlib.Core.Path.{subst, ap₂}
use e_ovpn_pro.Base.{
  codes, Bool, Option, none, ap, ℕ, suc, ◌+◌, ◌<◌, true, false, some, List, [], ◌∷◌, ◌++◌, ◌≡◌, ◌≢◌,
  refl, sym, ◌∙◌, Text, All, length, get_elem?, map, arith, get_elem?-append_next, length-append,
}
use e_ovpn_pro.AutoConnect.{CascadePhase, connecting, settling, exhausted}
use e_ovpn_pro.Cascade.Attempt.{Tag}
use e_ovpn_pro.Cascade.Attempt
use e_ovpn_pro.Cascade.State.{
  Env, Manager, State, Source, Effect, run_timeout, run_settle, watched, asked_connect, emit,
  drop_source, add_source,
}
use e_ovpn_pro.Cascade.Timers.{disarm_timers}
use e_ovpn_pro.Cascade.Finish.{finish, finish_exhausted, close_run, complete_active_attempt}
use e_ovpn_pro.Cascade.Loop.{run_callback}
use e_ovpn_pro.Cascade.Pending.{connects, Fresh, fire_held}
use e_ovpn_pro.Cascade.Frames.{emit-Framed}
use e_ovpn_pro.Cascade.Walk.{
  on_timeout, on_settle, try_current_server, try_server, start_attempt, advance, message_or,
}
use e_ovpn_pro.Cascade.Controller.{begin, reset_run}
use e_ovpn_pro.Cascade.Exhaustion.Turns.{timeout-Walks, settle-Walks, settle-exhausted}
use e_ovpn_pro.Cascade.Exhaustion.{
  IsQuiet, Walks, on_timeout-advance, not_stale, on_settle-live, quiet-connects,
  start_attempt-Framed, open_attempt-fields, try_current-some,
}
use e_ovpn_pro.Cascade.Silence.Turns.{
  IsExhausted, Trying, Settling, attempted, Attempts, attempted-IsPending, timeout-turn,
  settle-turn, settle-end,
}

-- One round: the timeout of an attempt fires, and the settle timer after it, each with its own clock;
-- a timer that is not pending does not fire.
unfoldable pub silent_round : Env × Env → State → State
unfolding fire_held
silent_round (at_timeout, at_settle) s =
    let t = fire_held at_timeout s.timeout_id s in fire_held at_settle t.settle_id t

unfoldable pub silent : List (Env × Env) → State → State
unfolding silent_round
silent [] s = s
silent (e ∷ rounds) s = silent rounds (silent_round e s)

abbrev pub timed_out : List Text → List (Text × Tag)
timed_out = map (λ name. (name, Attempt.timeout))

abbrev pub AllQuiet : Manager → List (Env × Env) → Type 0
AllQuiet m = All (λ e. IsQuiet e.0 m × IsQuiet e.1 m)

regroup : (xs : List Text) (x : Text) (ys : List Text) → (xs ++ x ∷ []) ++ ys ≡ xs ++ x ∷ ys
regroup xs x ys = append_assoc xs (x ∷ []) ys

module _ (g : ℕ) (q : List Text) (m : Manager) where
  next_server :
      (tried : List Text) (name : Text) (rest : List Text)
      → q ≡ tried ++ name ∷ rest
      → get_elem? q (suc (length tried)) ≡ get_elem? rest 0
  next_server tried name rest e = rw e (get_elem?-append_next tried name rest)

  silent-IsExhausted :
      (rounds : List (Env × Env)) (tried : List Text) (c : ℕ) (name : Text) (rest : List Text)
      (fs : List (Text × Tag)) (calls : List Text) (s : State)
      → AllQuiet m rounds
      → length rounds ≡ suc (length rest)
      → All (λ name. name ≢ []) rest
      → q ≡ tried ++ (c ∷ name) ∷ rest
      → Trying g q (length tried) (c ∷ name) fs calls s
      → IsExhausted (fs ++ timed_out ((c ∷ name) ∷ rest)) (calls ++ rest) (silent rounds s)
  unfolding silent silent_round
  silent-IsExhausted [] tried c name rest fs calls s quiet n full e w = absurd (omega arith)
  silent-IsExhausted ((a, b) ∷ []) tried c name [] fs calls s quiet n full e w =
      let given_up = timeout-turn g q a (length tried) c name fs calls s quiet.0.0.free w in
      subst (λ made. IsExhausted (fs ++ timed_out ((c ∷ name) ∷ [])) made (silent_round (a, b) s))
        (sym (append-nil calls))
        (settle-end g q b (suc (length tried)) _ _ calls _ (next_server tried (c ∷ name) [] e)
          given_up)
  silent-IsExhausted ((a, b) ∷ r ∷ rounds) tried c name [] fs calls s quiet n full e w =
      absurd (omega arith)
  silent-IsExhausted (r ∷ rounds) tried c name ([] ∷ rest) fs calls s quiet n full e w =
      absurd (full.0 refl)
  silent-IsExhausted ((a, b) ∷ rounds) tried c name ((d ∷ next) ∷ rest) fs calls s quiet n full e
        w =
      let given_up = timeout-turn g q a (length tried) c name fs calls s quiet.0.0.free w in
      let walking =
        settle-turn g q b m (suc (length tried)) _ (d ∷ next) _ calls _ quiet.0.1
          (next_server tried (c ∷ name) ((d ∷ next) ∷ rest) e) given_up in
      let there : suc (length tried) ≡ length (tried ++ (c ∷ name) ∷ []) =
        omega (arith, length-append {0} tried ((c ∷ name) ∷ [])) in
      let later =
        silent-IsExhausted rounds (tried ++ (c ∷ name) ∷ []) d next rest
          (fs ++ (c ∷ name, Attempt.timeout) ∷ []) (calls ++ (d ∷ next) ∷ []) _ quiet.1
          (omega arith) full.1 (e ∙ sym (regroup tried (c ∷ name) ((d ∷ next) ∷ rest)))
          (rw there at walking) in
      rw
        (
          append_assoc fs ((c ∷ name, Attempt.timeout) ∷ []) (timed_out ((d ∷ next) ∷ rest)),
          append_assoc calls ((d ∷ next) ∷ []) rest,
        )
        at later

begin-quiet :
    (env : Env) (m : Manager) (queue : List Text) (s : State)
    → IsQuiet env m
    → begin env queue s ≡ try_current_server env (reset_run queue s)
unfolding begin
begin-quiet env m queue s quiet = ground arith

begin-Walks :
    (env : Env) (m : Manager) (c : ℕ) (name : Text) (rest : List Text) (s : State)
    → IsQuiet env m
    → Walks true connecting
        (s.gen + 1)
        ((c ∷ name) ∷ rest)
        0
        (some (c ∷ name))
        []
        (begin env ((c ∷ name) ∷ rest) s)
unfolding begin reset_run
begin-Walks env m c name rest s quiet =
    let queue = (c ∷ name) ∷ rest in
    let started = start_attempt env (c ∷ name) (reset_run queue s) in
    rw
      (
        begin-quiet env m queue s quiet,
        try_current-some env (some (c ∷ name)) (reset_run queue s) refl refl,
        quiet-connects env m (c ∷ name) (reset_run queue s) quiet,
      )
      (ground (
        arith,
        start_attempt-Framed env (c ∷ name) (reset_run queue s),
        open_attempt-fields env (c ∷ name) (reset_run queue s),
        emit-Framed watched started,
        emit-Framed (asked_connect (c ∷ name))
            (record (emit watched started) { disconnect_retries = 0 }),
      ))

begin-Trying :
    (env : Env) (m : Manager) (c : ℕ) (name : Text) (rest : List Text) (s : State)
    → IsQuiet env m
    → Fresh s.next_source s.sources
    → Trying
        (s.gen + 1)
        ((c ∷ name) ∷ rest)
        0
        (c ∷ name)
        []
        (connects s.effects ++ (c ∷ name) ∷ [])
        (begin env ((c ∷ name) ∷ rest) s)
unfolding reset_run
begin-Trying env m c name rest s quiet fresh =
    let queue = (c ∷ name) ∷ rest in
    let ready = reset_run queue s in
    let first : begin env queue s ≡ attempted env (c ∷ name) ready =
      begin-quiet env m queue s quiet
      ∙ try_current-some env (some (c ∷ name)) ready refl refl
      ∙ quiet-connects env m (c ∷ name) ready quiet in
    let tries =
      attempted-IsPending env (s.gen + 1) (c ∷ name) (connects s.effects) ready refl fresh refl in
    let (held, pending, made) =
      subst (Attempts s.next_source (s.gen + 1) (connects s.effects ++ (c ∷ name) ∷ [])) (sym first)
        tries in
    record {
      walks = begin-Walks env m c name rest s quiet;
      id = s.next_source;
      held = held;
      pending = pending;
      made = made;
    }

-- If no server of the queue answers before its timeout, and the backend neither stays connected nor
-- raises, then, each time the main loop fires the timeout that is pending and the settle timer that
-- is pending after it, the cascade asks the backend for every server once, in the order of the
-- queue, and ends without a connection; the failures are the servers of the queue, each timed out.
-- No source that is pending at the start has an id that the main loop gives out later.
pub silent_cascade :
    (env : Env) (m : Manager) (queue : List Text) (rounds : List (Env × Env)) (s : State)
    → queue ≢ []
    → All (λ name. name ≢ []) queue
    → IsQuiet env m
    → AllQuiet m rounds
    → length rounds ≡ length queue
    → Fresh s.next_source s.sources
    → IsExhausted
        (timed_out queue)
        (connects s.effects ++ queue)
        (silent rounds (begin env queue s))
silent_cascade env m [] rounds s some_server full quiet later n fresh = absurd (some_server refl)
silent_cascade env m ([] ∷ rest) rounds s some_server full quiet later n fresh =
    absurd (full.0 refl)
silent_cascade env m ((c ∷ name) ∷ rest) rounds s some_server full quiet later n fresh =
    let all =
      silent-IsExhausted (s.gen + 1) ((c ∷ name) ∷ rest) m rounds [] c name rest [] _ _ later n
        full.1 refl (begin-Trying env m c name rest s quiet fresh) in
    rw (append_assoc (connects s.effects) ((c ∷ name) ∷ []) rest) at all
