-- ===== src/MainWindow/SpeedTest/Click.antt =====
-- The click that begins an auto-connect without measurements, on_fastest_clicked of eovpn/main_window.py.
use e_ovpn_pro.Base.{
  Bool, true, false, not, ◌||◌, List, [], ◌∷◌, Text, if◌then◌else◌, ◌≡◌, ap, ◌∙◌, arith, Bool-cases,
  inl, inr,
}
use e_ovpn_pro.AutoConnect.{preparing}
use e_ovpn_pro.AutoConnect.Queue.{Latencies}
use e_ovpn_pro.Cascade.State.{Env, State, emit}
use e_ovpn_pro.Cascade.Controller.{
  busy, toggle, start, start_with, measure_first, show_preparing, candidate_scope, cancel,
  start_from_visible_list,
}
use e_ovpn_pro.MainWindow.SpeedTest.{
  Tester, after_toggle, trigger_speed_test, on_sort_toggled, is_empty_map, on_fastest_clicked,
}

-- Nothing runs, there are configurations, and nothing has been measured.
pub record CanWait (s : State) : Type 0 where
  pub is_idle : busy s ≡ false
  pub first : Text
  pub others : List Text
  pub scope : candidate_scope s ≡ first ∷ others
  pub unmeasured : s.latencies ≡ []

not_active : (s : State) → busy s ≡ false → s.active ≡ false
not_active s h = ground arith

toggle-measure_first : (env : Env) (s : State) → CanWait s → toggle env s ≡ measure_first s
unfolding toggle start start_with
toggle-measure_first env s h =
    ap (λ (b : Bool). if b then cancel env s else start env s) h.is_idle
    ∙ ap (λ (b : Bool). if b then s else start_with env (candidate_scope s) s)
        (not_active s h.is_idle)
    ∙ ap (λ names. start_with env names s) h.scope
    ∙ ap
        (λ (d : Latencies). elim d as (λ _. State) [
          | [] ↦ measure_first s
          | _ ∷ _ ↦ start_from_visible_list env s
        ])
        h.unmeasured

-- A run that waits for its test.
pub record IsWaiting (s : State) : Type 0 where
  pub active : s.active ≡ true
  pub waits : s.auto_cascade_after_test ≡ true
  pub phase : s.phase ≡ preparing

measure_first-IsWaiting : (s : State) → IsWaiting (measure_first s)
unfolding measure_first show_preparing emit
measure_first-IsWaiting s = ground arith

measure_first-latencies : (s : State) → (measure_first s).latencies ≡ s.latencies
unfolding measure_first show_preparing emit
measure_first-latencies s = ground arith

measure_first-configs : (s : State) → (measure_first s).configs ≡ s.configs
unfolding measure_first show_preparing emit
measure_first-configs s = ground arith

sorting : State → State
sorting s = record s { sort_by_speed_active = true }

sorting-IsWaiting : (s : State) → IsWaiting s → IsWaiting (sorting s)
unfolding sorting
sorting-IsWaiting s h = record { active = h.active; waits = h.waits; phase = h.phase }

-- the click triggers the test, whatever the sort button says
pub clicked :
    (env : Env) (t : Tester)
    → CanWait t.cascade
    → (s : State) × IsWaiting s
      × (s.configs ≡ t.cascade.configs)
      × (on_fastest_clicked env t ≡ trigger_speed_test (record t { cascade = s }))
unfolding on_fastest_clicked after_toggle on_sort_toggled sorting
clicked env t h =
    let s = measure_first t.cascade in
    let waiting = measure_first-IsWaiting t.cascade in
    let started = ap (λ s'. after_toggle s' t) (toggle-measure_first env t.cascade h) in
    let asks : busy t.cascade || not s.auto_cascade_after_test ≡ false =
      asked (busy t.cascade) s.auto_cascade_after_test h.is_idle waiting.waits in
    let past =
      ap
        (λ (b : Bool).
          if b
          then record t { cascade = s }
          else if t.cascade.sort_by_speed_active
          then trigger_speed_test (record t { cascade = s })
          else on_sort_toggled true (record t { cascade = s }))
        asks in
    elim (Bool-cases t.cascade.sort_by_speed_active) [
      | inl e ↦ (
        s,
        waiting,
        measure_first-configs t.cascade,
        started
            ∙ past
            ∙ ap
                (λ (b : Bool).
                  if b
                  then trigger_speed_test (record t { cascade = s })
                  else on_sort_toggled true (record t { cascade = s }))
                e,
      )
      | inr e ↦ (
        sorting s,
        sorting-IsWaiting s waiting,
        measure_first-configs t.cascade,
        started
            ∙ past
            ∙ ap
                (λ (b : Bool).
                  if b
                  then trigger_speed_test (record t { cascade = s })
                  else on_sort_toggled true (record t { cascade = s }))
                e
            ∙ ap
                (λ (d : Latencies).
                  if is_empty_map d
                  then trigger_speed_test (record t { cascade = sorting s })
                  else record t { cascade = sorting s })
                (measure_first-latencies t.cascade ∙ h.unmeasured),
      )
    ]
  where
    asked : (b c : Bool) → b ≡ false → c ≡ true → b || not c ≡ false
    asked b c h h' = ground arith
