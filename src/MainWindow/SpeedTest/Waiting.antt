-- ===== src/MainWindow/SpeedTest/Waiting.antt =====
-- An auto-connect without measurements, which waits for the speed test of eovpn/main_window.py.
use e_ovpn_pro.Base.{
  ℕ, ◌+◌, Bool, true, false, not, ◌&&◌, [], if◌then◌else◌, ◌≡◌, refl, sym, ap, ◌∙◌,
}
use mathlib.Core.Path.{subst}
use e_ovpn_pro.AutoConnect.{cancelled}
use e_ovpn_pro.AutoConnect.Queue.{Latencies}
use e_ovpn_pro.Speed.Best.{latency_map-replace}
use e_ovpn_pro.Cascade.State.{Env, State}
use e_ovpn_pro.Cascade.Controller.{busy, cancel, start_from_visible_list}
use e_ovpn_pro.Cascade.Inactive.{IsOver, cancel_final}
use e_ovpn_pro.Cascade.Finish.{is_preparing}
use e_ovpn_pro.MainWindow.SpeedTest.{
  Tester, trigger_speed_test, take_results, test_cancelled, test_finished, select_fastest,
  auto_select, go_on, on_speed_test_complete, on_fastest_clicked,
}
use e_ovpn_pro.MainWindow.SpeedTest.Click.{CanWait, IsWaiting, clicked}

abbrev asleep : Tester → Tester
asleep t = record t { cascade = record t.cascade { auto_cascade_after_test = false } }

abbrev walking : Env → Tester → Tester
walking env t = record (asleep t) { cascade = start_from_visible_list env (asleep t).cascade }

go_on-waiting : (env : Env) (t : Tester) → IsWaiting t.cascade → go_on env t ≡ walking env t
unfolding go_on
go_on-waiting env t h =
    ap
      (λ (b : Bool).
        if b
        then if t.cascade.active && is_preparing t.cascade.phase
          then walking env t
          else auto_select (asleep t)
        else auto_select t)
      h.waits
    ∙ ap
        (λ (b : Bool).
          if b && is_preparing t.cascade.phase then walking env t else auto_select (asleep t))
        h.active
    ∙ ap (λ p. if is_preparing p then walking env t else auto_select (asleep t)) h.phase

go_on-idle :
    (env : Env) (t : Tester)
    → t.cascade.auto_cascade_after_test ≡ false
    → t.auto_select_after_test ≡ false
    → (go_on env t).cascade ≡ t.cascade
unfolding go_on auto_select
go_on-idle env t h a =
    ap
      (λ (b : Bool).
        (if b
          then if t.cascade.active && is_preparing t.cascade.phase
            then walking env t
            else auto_select (asleep t)
          else auto_select t).cascade)
      h
    ∙ ap
        (λ (b : Bool).
          (if b
            then record t { auto_select_after_test = false; cascade = select_fastest t.cascade }
            else t).cascade)
        a

abbrev enabled : Tester → Tester
enabled t = record t { button_sensitive = true }

-- the end of the test for a run that waits
finished :
    (env : Env) (now : ℕ) (results : Latencies) (t : Tester)
    → IsWaiting t.cascade
    → t.speed_test_cancel ≡ false
    → (on_speed_test_complete env now results t).cascade
      ≡ start_from_visible_list env
          (record t.cascade { latencies = results; auto_cascade_after_test = false })
unfolding on_speed_test_complete take_results
finished env now results t h c =
    ap
      (λ (b : Bool).
        (go_on env
          (enabled (if b then test_cancelled env t else test_finished now results t))).cascade)
      c
    ∙ ap (λ v. v.cascade)
        (go_on-waiting env (enabled (test_finished now results t))
          (record { active = h.active; waits = h.waits; phase = h.phase }))
    ∙ ap
        (λ (d : Latencies).
          start_from_visible_list env
            (record t.cascade { latencies = d; auto_cascade_after_test = false }))
        (latency_map-replace now results t.speed_snapshot).0

waiting-busy : (s : State) → IsWaiting s → busy s ≡ true
waiting-busy s h = rw h.active refl

stopped :
    (env : Env) (now : ℕ) (results : Latencies) (t : Tester)
    → IsWaiting t.cascade
    → t.auto_select_after_test ≡ false
    → t.speed_test_cancel ≡ true
    → IsOver cancelled (on_speed_test_complete env now results t).cascade
unfolding on_speed_test_complete take_results
stopped env now results t h a c =
    let over = (cancel_final env [] t.cascade (waiting-busy t.cascade h)).0 in
    let ended = record t { speed_test_running = false; cascade = cancel env t.cascade } in
    let whole =
      ap
        (λ (b : Bool).
          (go_on env
            (enabled (if b then test_cancelled env t else test_finished now results t))).cascade)
        c
      ∙ ap
          (λ (b : Bool).
            (go_on env (
              enabled (record ended {
                cascade = if b then cancel env t.cascade else t.cascade;
              }))).cascade)
          h.waits
      ∙ go_on-idle env (enabled ended) over.test a in
    subst (IsOver cancelled) (sym whole) over

-- `u` is `t` with one test started, which a run waits for: it walks the queue of its results.
pub record Started (env : Env) (now : ℕ) (results : Latencies) (t u : Tester) : Type 0 where
  pub is_running : u.speed_test_running ≡ true
  pub is_live : u.speed_test_cancel ≡ false
  pub one_worker : u.workers ≡ t.workers + 1
  pub waits : IsWaiting u.cascade
  pub same_configs : u.cascade.configs ≡ t.cascade.configs
  pub walks :
      (on_speed_test_complete env now results u).cascade
      ≡ start_from_visible_list env
          (record u.cascade { latencies = results; auto_cascade_after_test = false })

module _ (env : Env) (t : Tester) (h : CanWait t.cascade) where
  -- A click for the fastest server, with configurations but nothing measured, with no run and no
  -- test going on, and with the button of the test enabled, starts one test, which is then running
  -- and not cancelled, and leaves a run that waits for it; once the test has ended, whatever its
  -- results, that run walks the queue that they give for the same configurations.
  pub measures_first :
      (env' : Env) (now : ℕ) (results : Latencies)
      → t.speed_test_running ≡ false
      → t.button_sensitive ≡ true
      → Started env' now results t (on_fastest_clicked env t)
  unfolding trigger_speed_test
  measures_first env' now results r b =
      let (s, waiting, same_configs, step) = clicked env t h in
      let t' = record t {
        cascade = s;
        speed_test_cancel = false;
        speed_test_running = true;
        button_sensitive = true;
        workers = t.workers + 1;
      } in
      let triggered : trigger_speed_test (record t { cascade = s }) ≡ t' =
        ap
          (λ (c : Bool).
            if c
            then record t { cascade = s; speed_test_cancel = true; button_sensitive = false }
            else if not t.button_sensitive
            then record t { cascade = s }
            else t')
          r
        ∙ ap (λ (c : Bool). if not c then record t { cascade = s } else t') b in
      let started : Started env' now results t t' = record {
        is_running = refl;
        is_live = refl;
        one_worker = refl;
        waits = waiting;
        same_configs = same_configs;
        walks = finished env' now results t' waiting refl;
      } in
      subst (Started env' now results t) (sym (step ∙ triggered)) started

  -- Where a test is running already and no selection was asked for, the same click cancels that
  -- test, and the end of the test, whatever its results, cancels the run that the click has begun.
  pub click_cancels_running_test :
      (env' : Env) (now : ℕ) (results : Latencies)
      → t.speed_test_running ≡ true
      → t.auto_select_after_test ≡ false
      → IsOver cancelled
          (on_speed_test_complete env' now results (on_fastest_clicked env t)).cascade
  unfolding trigger_speed_test
  click_cancels_running_test env' now results r a =
      let (s, waiting, _, step) = clicked env t h in
      let t' = record t { cascade = s; speed_test_cancel = true; button_sensitive = false } in
      let triggered : trigger_speed_test (record t { cascade = s }) ≡ t' =
        ap
          (λ (c : Bool).
            if c
            then t'
            else if not t.button_sensitive
            then record t { cascade = s }
            else record t {
              cascade = s;
              speed_test_cancel = false;
              speed_test_running = true;
              button_sensitive = true;
              workers = t.workers + 1;
            })
          r in
      subst (λ v. IsOver cancelled (on_speed_test_complete env' now results v).cascade)
        (sym (step ∙ triggered)) (stopped env' now results t' waiting a refl)
