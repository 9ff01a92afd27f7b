-- ===== src/Cascade/Silence/Turns.antt =====
-- The two timers of one server of a silent cascade: its timeout, and the settle timer after it.
use mathlib.Core.List.{append-nil}
use mathlib.Core.Path.{subst, ap₂}
use e_ovpn_pro.Base.{
  codes, Bool, Option, none, ap, ℕ, suc, ◌<◌, true, false, some, List, [], ◌∷◌, ◌++◌, ◌≡◌, ◌≢◌, sym,
  ◌∙◌, Text, get_elem?, arith,
}
use e_ovpn_pro.AutoConnect.{CascadePhase, connecting, settling, exhausted}
use e_ovpn_pro.Cascade.Attempt.{Tag}
use e_ovpn_pro.Cascade.Attempt
use e_ovpn_pro.Cascade.State.{
  Env, Manager, State, Source, run_timeout, run_settle, watched, asked_connect, emit, drop_source,
  add_source,
}
use e_ovpn_pro.Cascade.Timers.{disarm_timers}
use e_ovpn_pro.Cascade.Finish.{finish, finish_exhausted, close_run, complete_active_attempt}
use e_ovpn_pro.Cascade.Loop.{run_callback}
use e_ovpn_pro.Cascade.Pending.{
  connects, Fresh, IsPending, start_attempt-IsPending, fire_held, fire-callback, IsPending-drop,
}
use e_ovpn_pro.Cascade.Pending.Settle.{connects-append, advance-IsPending}
use e_ovpn_pro.Cascade.Walk.{on_timeout, on_settle, try_server, start_attempt, advance, message_or}
use e_ovpn_pro.Cascade.Exhaustion.Turns.{timeout-Walks, settle-Walks, settle-exhausted}
use e_ovpn_pro.Cascade.Exhaustion.{
  IsQuiet, Walks, on_timeout-advance, not_stale, on_settle-live, quiet-connects, try_current-some,
}

-- `s` has ended without a connection, with these failures, after these calls of `connect`.
pub record IsExhausted (failures : List (Text × Tag)) (calls : List Text) (s : State) : Type 0 where
  pub active_eq : s.active ≡ false
  pub phase_eq : s.phase ≡ exhausted
  pub failures_eq : s.failures ≡ failures
  pub calls_eq : connects s.effects ≡ calls

-- The run tries a server: its timeout is pending, and these connections have been asked for.
pub record Trying (g : ℕ) (q : List Text) (index : ℕ) (name : Text) (fs : List (Text × Tag))
    (calls : List Text) (s : State) : Type 0 where
  pub walks : Walks true connecting g q index (some name) fs s
  pub id : ℕ
  pub held : s.timeout_id ≡ some id
  pub pending : IsPending id (run_timeout g) s
  pub made : connects s.effects ≡ calls

-- The run waits for the settle time.
pub record Settling (g : ℕ) (q : List Text) (index : ℕ) (name : Text) (fs : List (Text × Tag))
    (calls : List Text) (s : State) : Type 0 where
  pub walks : Walks true settling g q index (some name) fs s
  pub id : ℕ
  pub held : s.settle_id ≡ some id
  pub pending : IsPending id (run_settle g) s
  pub made : connects s.effects ≡ calls

drop-Walks :
    {active : Bool} {phase : CascadePhase} {g : ℕ} {q : List Text} {i : ℕ} {current : Option Text}
    {fs : List (Text × Tag)} (xs : List Source) (s : State)
    → Walks active phase g q i current fs s
    → Walks active phase g q i current fs (record s { sources = xs })
drop-Walks xs s w = record {
  active_eq = w.active_eq;
  phase_eq = w.phase_eq;
  gen_eq = w.gen_eq;
  queue_eq = w.queue_eq;
  index_eq = w.index_eq;
  current_eq = w.current_eq;
  failures_eq = w.failures_eq;
}

on_timeout-once : (env : Env) (g : ℕ) (s : State) → (on_timeout env g s).1 ≡ false
unfolding on_timeout
on_timeout-once env g s = ground arith

on_settle-once : (env : Env) (g : ℕ) (s : State) → (on_settle env g s).1 ≡ false
unfolding on_settle
on_settle-once env g s = ground arith

differs : (i j : ℕ) → j < i → i ≢ j
differs i j h e = omega arith

-- the attempt that a quiet backend ends in
abbrev pub attempted : Env → Text → State → State
attempted env name s =
    emit (asked_connect name)
      (record (emit watched (start_attempt env name s)) { disconnect_retries = 0 })

-- a timeout of this generation is pending under this id, and these connections have been asked for
abbrev pub Attempts : ℕ → ℕ → List Text → State → Type 0
Attempts i g calls t =
    (t.timeout_id ≡ some i) × IsPending i (run_timeout g) t × (connects t.effects ≡ calls)

pub attempted-IsPending :
    (env : Env) (g : ℕ) (name : Text) (calls : List Text) (s : State)
    → s.gen ≡ g
    → Fresh s.next_source s.sources
    → connects s.effects ≡ calls
    → Attempts s.next_source g (calls ++ name ∷ []) (attempted env name s)
unfolding emit connects
attempted-IsPending env g name calls s same_gen fresh made =
    let (held, effects, pending) = start_attempt-IsPending env name s fresh in
    let ours =
      subst (λ n. IsPending s.next_source (run_timeout n) (start_attempt env name s)) same_gen
        pending in
    let said : connects ((start_attempt env name s).effects ++ watched ∷ []) ≡ calls =
      connects-append (start_attempt env name s).effects (watched ∷ [])
      ∙ append-nil (connects (start_attempt env name s).effects)
      ∙ ap connects effects
      ∙ made in
    (
      held,
      record { found = ours.found; below = ours.below; fresh = ours.fresh },
      connects-append ((start_attempt env name s).effects ++ watched ∷ []) (asked_connect name ∷ [])
          ∙ ap (λ xs. xs ++ name ∷ []) said,
    )

exhausted-connects :
    (env : Env) (s : State) → connects (finish env exhausted true s).effects ≡ connects s.effects
unfolding finish finish_exhausted close_run disarm_timers complete_active_attempt add_source
exhausted-connects env s = ap connects (ground arith)

module _ (g : ℕ) (q : List Text) where
  -- the timeout fires
  pub timeout-turn :
      (env : Env) (i c : ℕ) (name : Text) (fs : List (Text × Tag)) (calls : List Text) (s : State)
      → env.user_busy ≡ false
      → Trying g q i (c ∷ name) fs calls s
      → Settling g q
          (suc i)
          (c ∷ name)
          (fs ++ (c ∷ name, Attempt.timeout) ∷ [])
          calls
          (fire_held env s.timeout_id s)
  unfolding run_callback
  timeout-turn env i c name fs calls s free w =
      let waiting : State = record s { timeout_id = none } in
      let t = (on_timeout env g s).0 in
      let message = message_or s.pending_failure_message (codes "Handshake timeout expired.") in
      let given_up : t ≡ advance env Attempt.timeout (some Attempt.timeout) (some message) waiting =
        on_timeout-advance env g s (not_stale g s w.walks.active_eq w.walks.gen_eq) free in
      let (held, pending, made) =
        advance-IsPending env Attempt.timeout (some Attempt.timeout) (some message) waiting
          w.walks.active_eq w.pending.fresh in
      let settles : IsPending s.next_source (run_settle g) t =
        subst (IsPending s.next_source (run_settle g)) (sym given_up) (
          subst
            (λ n.
              IsPending s.next_source (run_settle n)
                (advance env Attempt.timeout (some Attempt.timeout) (some message) waiting))
            w.walks.gen_eq pending) in
      subst (Settling g q (suc i) (c ∷ name) (fs ++ (c ∷ name, Attempt.timeout) ∷ []) calls)
        (sym (
          fire-callback env w.id (run_timeout g) s.timeout_id s w.held w.pending.found
            (on_timeout-once env g s)))
        (record {
          walks =
              drop-Walks (drop_source (some w.id) t.sources) t
                (timeout-Walks g q env i c name fs s free w.walks);
          id = s.next_source;
          held = ap (λ u. u.settle_id) given_up ∙ held;
          pending =
              IsPending-drop s.next_source w.id (run_settle g) t
                (differs s.next_source w.id w.pending.below) settles;
          made = ap (λ u. connects u.effects) given_up ∙ made ∙ w.made;
        })

  -- the settle timer fires, and there is another server
  pub settle-turn :
      (env : Env) (m : Manager) (i : ℕ) (old name : Text) (fs : List (Text × Tag))
      (calls : List Text) (s : State)
      → IsQuiet env m
      → get_elem? q i ≡ some name
      → Settling g q i old fs calls s
      → Trying g q i name fs (calls ++ name ∷ []) (fire_held env s.settle_id s)
  unfolding run_callback
  settle-turn env m i old name fs calls s quiet e w =
      let forgotten : State = record s { settle_id = none } in
      let t = (on_settle env g s).0 in
      let next : t ≡ attempted env name forgotten =
        on_settle-live env g s (not_stale g s w.walks.active_eq w.walks.gen_eq)
        ∙ try_current-some env (some name) forgotten w.walks.active_eq
            (ap₂ get_elem? w.walks.queue_eq w.walks.index_eq ∙ e)
        ∙ quiet-connects env m name forgotten quiet in
      let tries =
        attempted-IsPending env g name calls forgotten w.walks.gen_eq w.pending.fresh w.made in
      let (held, pending, made) =
        subst (Attempts s.next_source g (calls ++ name ∷ [])) (sym next) tries in
      subst (Trying g q i name fs (calls ++ name ∷ []))
        (sym (
          fire-callback env w.id (run_settle g) s.settle_id s w.held w.pending.found
            (on_settle-once env g s)))
        (record {
          walks =
              drop-Walks (drop_source (some w.id) t.sources) t
                (settle-Walks g q env m i (some old) name fs s quiet e w.walks);
          id = s.next_source;
          held = held;
          pending =
              IsPending-drop s.next_source w.id (run_timeout g) t
                (differs s.next_source w.id w.pending.below) pending;
          made = made;
        })

  -- the settle timer fires, and there is no other server
  pub settle-end :
      (env : Env) (i : ℕ) (old : Text) (fs : List (Text × Tag)) (calls : List Text) (s : State)
      → get_elem? q i ≡ none
      → Settling g q i old fs calls s
      → IsExhausted fs calls (fire_held env s.settle_id s)
  unfolding run_callback try_server
  settle-end env i old fs calls s e w =
      let forgotten : State = record s { settle_id = none } in
      let t = (on_settle env g s).0 in
      let over = settle-exhausted g q env i (some old) fs s e w.walks in
      let next : t ≡ finish env exhausted true forgotten =
        on_settle-live env g s (not_stale g s w.walks.active_eq w.walks.gen_eq)
        ∙ try_current-some env none forgotten w.walks.active_eq
            (ap₂ get_elem? w.walks.queue_eq w.walks.index_eq ∙ e) in
      subst (IsExhausted fs calls)
        (sym (
          fire-callback env w.id (run_settle g) s.settle_id s w.held w.pending.found
            (on_settle-once env g s)))
        (record {
          active_eq = over.active_eq;
          phase_eq = over.phase_eq;
          failures_eq = over.failures_eq;
          calls_eq = ap (λ u. connects u.effects) next ∙ exhausted-connects env forgotten ∙ w.made;
        })
