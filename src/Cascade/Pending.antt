-- ===== src/Cascade/Pending.antt =====
-- The timer sources that eovpn/cascade_controller.py arms, and the connections that it asks for.
pub mod Settle
use e_ovpn_pro.Base.{
  ℕ, ◌+◌, ◌<◌, ◌==◌, Bool, true, false, Option, none, some, List, [], ◌∷◌, ◌++◌, Text, All,
  if◌then◌else◌, ◌≡◌, ◌≢◌, refl, sym, ap, ◌∙◌, arith, Bool-cases, Option-cases, inl, inr,
}
use mathlib.Core.Path.{subst}
use mathlib.Core.List.{append-nil}
use e_ovpn_pro.Cascade.Attempt.{Tag}
use e_ovpn_pro.Cascade.State.{
  Env, Callback, run_timeout, run_settle, Source, State, Effect, asked_connect, watched,
  asked_disconnect, asked_cancel, activated_sort, asked_speed_test, marked_failed, toasted,
  drop_source, add_source, emit, select_server,
}
use e_ovpn_pro.Cascade.Timers.{
  current_name, disarm_timers, update_banner, arm_timeout_and_ticks, arm_settle, reselect,
  is_connected,
}
use e_ovpn_pro.Cascade.Finish.{complete_active_attempt}
use e_ovpn_pro.Cascade.Walk.{advance, asked, mark_failure, move_on, open_attempt, start_attempt}
use e_ovpn_pro.Cascade.Loop.{find_source, fire, fire_found, settle_source, run_callback}
use e_ovpn_pro.Cascade.Sources.{find-append, find-drop}
use e_ovpn_pro.Cascade.Exhaustion.{update_connect_button_timer-eq, attempt_timeout-pos}

-- The servers that the backend has been asked to connect to, in their order.
unfoldable pub connects : List Effect → List Text
connects [] = []
connects (asked_connect name ∷ effects) = name ∷ connects effects
connects (_ ∷ effects) = connects effects

-- All sources have ids below this one.
abbrev pub Fresh : ℕ → List Source → Type 0
Fresh n sources = All (λ x. x.id < n) sources

pub fresh-drop : (n : ℕ) (o : Option ℕ) (xs : List Source) → Fresh n xs → Fresh n (drop_source o xs)
unfolding drop_source
fresh-drop n none xs h = h
fresh-drop n (some i) [] h = h
fresh-drop n (some i) (x ∷ xs) h = elim (Bool-cases (x.id == i)) [
  | inl e ↦ rw e (fresh-drop n (some i) xs h.1)
  | inr e ↦ rw e (h.0, fresh-drop n (some i) xs h.1)
]

pub fresh-add :
    (n k : ℕ) (callback : Callback) (xs : List Source)
    → Fresh n xs
    → Fresh (n + 1) (xs ++ (record { id = n; interval = k; callback = callback }) ∷ [])
fresh-add n k callback [] h = (omega arith, tt)
fresh-add n k callback (x ∷ xs) (h, hs) = (omega arith, fresh-add n k callback xs hs)

pub find-last :
    (n k : ℕ) (callback : Callback) (xs : List Source)
    → Fresh n xs
    → find_source n (xs ++ (record { id = n; interval = k; callback = callback }) ∷ [])
      ≡ some callback
unfolding find_source
find-last n k callback [] h = ground arith
find-last n k callback (x ∷ xs) (h, hs) = ground (arith, find-last n k callback xs hs)

-- `t` has the generation, the sources and the calls of `s`.
pub record Kept (s t : State) : Type 0 where
  pub gen : t.gen ≡ s.gen
  pub sources : t.sources ≡ s.sources
  pub next_source : t.next_source ≡ s.next_source
  pub effects : t.effects ≡ s.effects

select_server-Kept : (name : Text) (s : State) → Kept s (select_server name s)
unfolding select_server
select_server-Kept name s = ground arith

reselect-Kept : (name : Text) (o : Option Text) (s : State) → Kept s (reselect name o s)
unfolding reselect select_server
reselect-Kept [] o s = ground arith
reselect-Kept (c ∷ name) none s = ground arith
reselect-Kept (c ∷ name) (some other) s = ground arith

update_banner-Kept : (env : Env) (s : State) → Kept s (update_banner env s)
unfolding update_banner
update_banner-Kept env s = ground (arith, reselect-Kept (current_name s.current) s.selected s)

-- The callback is pending under this id, and no id is used twice.
pub record IsPending (i : ℕ) (callback : Callback) (s : State) : Type 0 where
  pub found : find_source i s.sources ≡ some callback
  pub below : i < s.next_source
  pub fresh : Fresh s.next_source s.sources

arm_timeout-IsPending :
    (env : Env) (s : State)
    → Fresh s.next_source s.sources
    → let t = arm_timeout_and_ticks env s in
      (t.timeout_id ≡ some s.next_source)
      × (t.effects ≡ s.effects)
      × IsPending s.next_source (run_timeout s.gen) t
unfolding arm_timeout_and_ticks disarm_timers add_source
arm_timeout-IsPending env s h =
    let clean =
      fresh-drop s.next_source s.settle_id _ (
        fresh-drop s.next_source s.tick_id _ (fresh-drop s.next_source s.timeout_id s.sources h)) in
    (
      refl,
      refl,
      record {
        found = find-append s.next_source _ _ _ (find-last s.next_source _ _ _ clean);
        below = omega arith;
        fresh = fresh-add (s.next_source + 1) _ _ _ (fresh-add s.next_source _ _ _ clean);
      },
    )

arms-after :
    (env : Env) (s u : State)
    → Kept s u
    → Fresh s.next_source s.sources
    → let t = arm_timeout_and_ticks env u in
      (t.timeout_id ≡ some s.next_source)
      × (t.effects ≡ s.effects)
      × IsPending s.next_source (run_timeout s.gen) t
arms-after env s u k h =
    let (id, calls, pending) = arm_timeout-IsPending env u (rw (k.next_source, k.sources) h) in
    (
      id ∙ ap some k.next_source,
      calls ∙ k.effects,
      subst (λ g. IsPending s.next_source (run_timeout g) (arm_timeout_and_ticks env u)) k.gen
          (subst (λ n. IsPending n (run_timeout u.gen) (arm_timeout_and_ticks env u)) k.next_source
            pending),
    )

-- A new attempt has its timeout pending.
pub start_attempt-IsPending :
    (env : Env) (name : Text) (s : State)
    → Fresh s.next_source s.sources
    → let t = start_attempt env name s in
      (t.timeout_id ≡ some s.next_source)
      × (t.effects ≡ s.effects)
      × IsPending s.next_source (run_timeout s.gen) t
unfolding start_attempt
start_attempt-IsPending env name s h =
    let opened = open_attempt env name s in
    let ready : State = record opened { expect_disconnect = false; manual_disconnect = false } in
    let chosen = select_server name ready in
    let from_start : Kept s ready = unfold open_attempt in ground arith in
    let kept : Kept s (update_banner env chosen) =
      ground (arith, from_start, select_server-Kept name ready, update_banner-Kept env chosen) in
    rw
      (update_connect_button_timer-eq env opened
        (unfold open_attempt in omega (arith, attempt_timeout-pos s name)))
      (arms-after env s (update_banner env chosen) kept h)

-- The loop dispatches the source that a field of the controller holds, if it holds one.
unfoldable pub fire_held : Env → Option ℕ → State → State
fire_held env none s = s
fire_held env (some i) s = fire env i s

-- A source that is pending and is not called again is called once, and dropped.
pub fire-callback :
    (env : Env) (i : ℕ) (callback : Callback) (o : Option ℕ) (s : State)
    → o ≡ some i
    → find_source i s.sources ≡ some callback
    → (run_callback env callback s).1 ≡ false
    → let t = (run_callback env callback s).0 in
      fire_held env o s ≡ record t { sources = drop_source (some i) t.sources }
unfolding fire_held fire fire_found
fire-callback env i callback o s h found once =
    ap (λ o. fire_held env o s) h
    ∙ ap (λ o. fire_found env i o s) found
    ∙ settled (run_callback env callback s) once
  where
    settled :
        (r : State × Bool)
        → r.1 ≡ false
        → settle_source i r ≡ record r.0 { sources = drop_source (some i) r.0.sources }
    settled (t, false) q = refl
    settled (t, true) q = absurd (cc)

pub IsPending-drop :
    (i j : ℕ) (callback : Callback) (s : State)
    → i ≢ j
    → IsPending i callback s
    → IsPending i callback (record s { sources = drop_source (some j) s.sources })
IsPending-drop i j callback s ne p = record {
  found = find-drop i j s.sources ne ∙ p.found;
  below = p.below;
  fresh = fresh-drop s.next_source (some j) s.sources p.fresh;
}
