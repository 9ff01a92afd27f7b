-- ===== src/Cascade/Sources.antt =====
-- The timer sources of eovpn/cascade_controller.py that a step leaves alone.
use e_ovpn_pro.Base.{
  ℕ, ◌≤◌, Bool, true, false, Option, none, some, List, [], ◌∷◌, ◌++◌, ◌≡◌, ◌≢◌, refl, ◌∙◌, arith,
  Text, le→leb,
}
use e_ovpn_pro.Cascade.Attempt.{Tag}
use e_ovpn_pro.Cascade.State.{Callback, drop_source, add_source, Env, State, Source, emit}
use e_ovpn_pro.Cascade.Timers.{is_connected, disarm_timers, arm_settle}
use e_ovpn_pro.Cascade.Finish.{complete_active_attempt}
use e_ovpn_pro.Cascade.Walk.{advance, mark_failure, move_on, asked, on_timeout, on_tick}
use e_ovpn_pro.Cascade.Loop.{find_source}
use e_ovpn_pro.Cascade.Exhaustion.{not_stale}

pub on_tick-due :
    (env : Env) (s : State)
    → s.active ≡ true
    → s.deadline ≤ env.now
    → env.user_busy ≡ false
    → (on_tick env s.gen s).0 ≡ (on_timeout env s.gen s).0
unfolding on_tick
on_tick-due env s on due free =
    rw (not_stale s.gen s on refl, free, le→leb s.deadline env.now due) refl

pub find-append :
    (i : ℕ) (callback : Callback) (xs ys : List Source)
    → find_source i xs ≡ some callback
    → find_source i (xs ++ ys) ≡ some callback
unfolding find_source
find-append i callback [] ys h = cc
find-append i callback (x ∷ xs) ys h = ground (arith, find-append i callback xs ys)

pub find-drop :
    (i j : ℕ) (xs : List Source)
    → i ≢ j
    → find_source i (drop_source (some j) xs) ≡ find_source i xs
unfolding find_source drop_source
find-drop i j [] h = refl
find-drop i j (x ∷ xs) h = ground (arith, find-drop i j xs h)

pub mark_failure-timers :
    (env : Env) (o : Option Text) (reason : Tag) (code : Option Tag) (message : Option Text)
    (s : State)
    → let t = mark_failure env o reason code message s in
      (t.sources ≡ s.sources)
      × (t.timeout_id ≡ s.timeout_id)
      × (t.tick_id ≡ s.tick_id)
      × (t.settle_id ≡ s.settle_id)
unfolding mark_failure emit complete_active_attempt
mark_failure-timers env none reason code message s = (refl, refl, refl, refl)
mark_failure-timers env (some []) reason code message s = (refl, refl, refl, refl)
mark_failure-timers env (some (c ∷ name)) reason code message s = ground arith

asked-sources :
    (b : Bool) (s : State)
    → ((asked b s).sources ≡ s.sources) × ((asked b s).settle_id ≡ s.settle_id)
unfolding asked emit
asked-sources true s = (refl, refl)
asked-sources false s = (refl, refl)

pub drop_none : (xs : List Source) → drop_source none xs ≡ xs
unfolding drop_source
drop_none [] = refl
drop_none (x ∷ xs) = refl

drop_none_of : (s : State) → s.settle_id ≡ none → drop_source s.settle_id s.sources ≡ s.sources
drop_none_of s e = rw e (drop_none s.sources)

move_on-settle : (s : State) → (move_on s).settle_id ≡ none
unfolding move_on disarm_timers
move_on-settle s = refl

-- `advance` drops the tick, and a source that the controller has no id of stays pending.
pub advance-keeps :
    (env : Env) (reason : Tag) (code : Option Tag) (message : Option Text) (i j : ℕ)
    (callback : Callback) (s : State)
    → s.active ≡ true
    → s.timeout_id ≡ none
    → s.tick_id ≡ some j
    → s.settle_id ≡ none
    → i ≢ j
    → find_source i s.sources ≡ some callback
    → find_source i (advance env reason code message s).sources ≡ some callback
unfolding advance arm_settle add_source
advance-keeps env reason code message i j callback s on no_timeout tick no_settle ne pending =
    let marked = mark_failure env s.current reason code message s in
    let timers = mark_failure-timers env s.current reason code message s in
    let moved = move_on marked in
    let told = asked (is_connected env.manager) moved in
    simp on (
      find-append i callback (drop_source told.settle_id told.sources) _ (
        rw
          (
            drop_none_of (asked (is_connected env.manager) moved)
                ((asked-sources (is_connected env.manager) moved).1 ∙ move_on-settle marked),
            (asked-sources (is_connected env.manager) moved).0,
          )
          (unfold move_on disarm_timers in
            simp (timers.0, timers.1, timers.2, timers.3, no_timeout, tick, no_settle, drop_none)
              (find-drop i j s.sources ne ∙ pending))))
