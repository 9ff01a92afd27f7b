-- ===== src/Cascade/Pending/Settle.antt =====
-- The settle timer that `advance` of eovpn/cascade_controller.py arms.
use e_ovpn_pro.Base.{
  Bool, true, false, Option, none, some, List, [], ◌∷◌, ◌++◌, Text, if◌then◌else◌, ◌≡◌, refl, sym,
  ap, ◌∙◌, arith, Option-cases, inl, inr,
}
use mathlib.Core.Path.{subst}
use mathlib.Core.List.{append-nil}
use e_ovpn_pro.Cascade.Attempt.{Tag}
use e_ovpn_pro.Cascade.State.{
  Env, run_settle, State, Effect, asked_connect, watched, asked_disconnect, asked_cancel,
  activated_sort, asked_speed_test, marked_failed, toasted, add_source, emit,
}
use e_ovpn_pro.Cascade.Timers.{disarm_timers, arm_settle, is_connected}
use e_ovpn_pro.Cascade.Finish.{complete_active_attempt}
use e_ovpn_pro.Cascade.Walk.{advance, asked, mark_failure, move_on}
use e_ovpn_pro.Cascade.Pending.{connects, Fresh, fresh-drop, fresh-add, find-last, IsPending}

pub connects-append : (xs ys : List Effect) → connects (xs ++ ys) ≡ connects xs ++ connects ys
unfolding connects
connects-append [] ys = refl
connects-append (asked_connect name ∷ xs) ys = ap (◌∷◌ name) (connects-append xs ys)
connects-append (watched ∷ xs) ys = connects-append xs ys
connects-append (asked_disconnect ∷ xs) ys = connects-append xs ys
connects-append (asked_cancel ∷ xs) ys = connects-append xs ys
connects-append (activated_sort ∷ xs) ys = connects-append xs ys
connects-append (asked_speed_test ∷ xs) ys = connects-append xs ys
connects-append (marked_failed name ∷ xs) ys = connects-append xs ys
connects-append (toasted t ∷ xs) ys = connects-append xs ys

connects-other :
    (xs : List Effect) (e : Effect) → connects (e ∷ []) ≡ [] → connects (xs ++ e ∷ []) ≡ connects xs
connects-other xs e h =
    connects-append xs (e ∷ []) ∙ ap (λ ys. connects xs ++ ys) h ∙ append-nil (connects xs)

-- `t` has the generation, the next id and the connections of `s`, and no new source.
record Calm (s t : State) : Type 0 where
  gen : t.gen ≡ s.gen
  next_source : t.next_source ≡ s.next_source
  fresh : Fresh s.next_source s.sources → Fresh s.next_source t.sources
  made : connects t.effects ≡ connects s.effects

mark_failure-Calm :
    (env : Env) (o : Option Text) (reason : Tag) (code : Option Tag) (message : Option Text)
    (s : State)
    → Calm s (mark_failure env o reason code message s)
unfolding mark_failure emit complete_active_attempt
mark_failure-Calm env none reason code message s = record {
  gen = refl;
  next_source = refl;
  fresh = λ h. h;
  made = refl;
}
mark_failure-Calm env (some []) reason code message s = record {
  gen = refl;
  next_source = refl;
  fresh = λ h. h;
  made = refl;
}
mark_failure-Calm env (some (c ∷ name)) reason code message s =
    let told : connects (s.effects ++ marked_failed (c ∷ name) ∷ []) ≡ connects s.effects =
      connects-other s.effects (marked_failed (c ∷ name)) (unfold connects in refl) in
    elim (Option-cases s.active_attempt) [
      | inl e ↦ rw e (record { gen = refl; next_source = refl; fresh = λ h. h; made = told })
      | inr (i, e) ↦ rw e (record { gen = refl; next_source = refl; fresh = λ h. h; made = told })
    ]

asked-Calm : (b : Bool) (s : State) → Calm s (asked b s)
unfolding asked emit
asked-Calm false s = record { gen = refl; next_source = refl; fresh = λ h. h; made = refl }
asked-Calm true s = record {
  gen = refl;
  next_source = refl;
  fresh = λ h. h;
  made = connects-other s.effects asked_disconnect (unfold connects in refl);
}

move_on-Calm : (s : State) → Calm s (move_on s)
unfolding move_on disarm_timers
move_on-Calm s = record {
  gen = refl;
  next_source = refl;
  fresh = λ h.
      fresh-drop s.next_source s.settle_id _
        (fresh-drop s.next_source s.tick_id _ (fresh-drop s.next_source s.timeout_id s.sources h));
  made = refl;
}

Calm-trans : (s t u : State) → Calm s t → Calm t u → Calm s u
Calm-trans s t u h k = record {
  gen = k.gen ∙ h.gen;
  next_source = k.next_source ∙ h.next_source;
  fresh = λ f.
      subst (λ n. Fresh n u.sources) h.next_source
        (k.fresh (subst (λ n. Fresh n t.sources) (sym h.next_source) (h.fresh f)));
  made = k.made ∙ h.made;
}

arm_settle-IsPending :
    (s : State)
    → Fresh s.next_source s.sources
    → IsPending s.next_source (run_settle s.gen) (arm_settle s)
unfolding arm_settle add_source
arm_settle-IsPending s h =
    let clean = fresh-drop s.next_source s.settle_id s.sources h in
    record {
      found = find-last s.next_source _ _ _ clean;
      below = omega arith;
      fresh = fresh-add s.next_source _ _ _ clean;
    }

settles-after :
    (s u : State)
    → Calm s u
    → Fresh s.next_source s.sources
    → ((arm_settle u).settle_id ≡ some s.next_source)
      × IsPending s.next_source (run_settle s.gen) (arm_settle u)
      × (connects (arm_settle u).effects ≡ connects s.effects)
unfolding arm_settle add_source
settles-after s u k h = (
  ap some k.next_source,
  subst (λ g. IsPending s.next_source (run_settle g) (arm_settle u)) k.gen
      (subst (λ n. IsPending n (run_settle u.gen) (arm_settle u)) k.next_source
        (arm_settle-IsPending u (subst (λ n. Fresh n u.sources) (sym k.next_source) (k.fresh h)))),
  k.made,
)

-- After `advance` the settle timer is pending, and no connection has been asked for.
pub advance-IsPending :
    (env : Env) (reason : Tag) (code : Option Tag) (message : Option Text) (s : State)
    → s.active ≡ true
    → Fresh s.next_source s.sources
    → let t = advance env reason code message s in
      (t.settle_id ≡ some s.next_source)
      × IsPending s.next_source (run_settle s.gen) t
      × (connects t.effects ≡ connects s.effects)
unfolding advance
advance-IsPending env reason code message s on h =
    let marked = mark_failure env s.current reason code message s in
    let b = is_connected env.manager in
    let moved = asked b (move_on marked) in
    let calm = Calm-trans s marked moved (mark_failure-Calm env s.current reason code message s) (
      Calm-trans marked (move_on marked) moved (move_on-Calm marked)
        (asked-Calm b (move_on marked))) in
    subst
      (λ (c : Bool).
        let t = if c then arm_settle moved else s in
        (t.settle_id ≡ some s.next_source)
        × IsPending s.next_source (run_settle s.gen) t
        × (connects t.effects ≡ connects s.effects))
      (sym on) (settles-after s moved calm h)
