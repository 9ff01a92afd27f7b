-- ===== src/Cascade/Exhaustion.antt =====
-- A run in which no server answers: every attempt times out, and the next one begins when the settle
-- time has passed.
pub mod Turns
use mathlib.Core.Path.{ap₂}
use e_ovpn_pro.Base.{
  codes, Option-cases, inl, inr, if_same, ℕ, suc, ◌+◌, ◌<◌, Bool, true, false, Option, none, some,
  List, [], ◌∷◌, ◌++◌, ◌≡◌, refl, ◌∙◌, Text, get_elem?, arith, lt→leb_false,
}
use e_ovpn_pro.AutoConnect.{CascadePhase, connecting, settling, succeeded, cancelled, exhausted}
use e_ovpn_pro.Base.Int.{pos}
use e_ovpn_pro.AutoConnect.Timeout.{compute_attempt_timeout_bounds}
use e_ovpn_pro.AutoConnect.Queue.{latency}
use e_ovpn_pro.Cascade.Attempt.{Tag, new_attempt}
use e_ovpn_pro.Cascade.Attempt
use e_ovpn_pro.Cascade.State.{
  asked_connect, watched, Env, Manager, returned, State, add_source, emit, select_server,
}
use e_ovpn_pro.Cascade.Timers.{is_connected, attempt_timeout, disarm_timers, update_banner}
use e_ovpn_pro.Cascade.Finish.{
  finish, finish_succeeded, finish_cancelled, finish_exhausted, close_run, complete_active_attempt,
}
use e_ovpn_pro.Cascade.Walk.{
  asked, advance, message_or, try_server, move_on, open_attempt, when_current, on_timeout,
  on_settle, try_current_server, update_connect_button_timer, start_attempt, use_manager,
  connect_file, is_stale, mark_failure,
}
use e_ovpn_pro.Cascade.Frames.{
  emit-Framed, asked-Framed, arm_settle-Framed, Framed, Framed-trans, select_server-Framed,
  update_banner-Framed, arm_timeout_and_ticks-Framed,
}
use e_ovpn_pro.Cascade.Inactive.{finish-IsOver}

-- A backend that is there, is not connected and raises nothing, and a user who is not busy.
pub record IsQuiet (env : Env) (m : Manager) : Type 0 where
  pub manager : env.manager ≡ some m
  pub status : m.status ≡ returned false
  pub watch : m.start_watch ≡ returned tt
  pub connect : (name : Text) → m.connect name ≡ returned tt
  pub files : (name : Text) → env.is_file name ≡ true
  pub free : env.user_busy ≡ false

-- The part of a state that the walk down the queue is about.
pub record Walks (active : Bool) (phase : CascadePhase) (gen : ℕ) (queue : List Text) (index : ℕ)
    (current : Option Text) (failures : List (Text × Tag)) (s : State) : Type 0 where
  pub active_eq : s.active ≡ active
  pub phase_eq : s.phase ≡ phase
  pub gen_eq : s.gen ≡ gen
  pub queue_eq : s.queue ≡ queue
  pub index_eq : s.index ≡ index
  pub current_eq : s.current ≡ current
  pub failures_eq : s.failures ≡ failures

-- What `advance` does to the run when there is a current server.
pub record Advanced (name : Text) (reason : Tag) (s t : State) : Type 0 where
  pub active : t.active ≡ true
  pub phase : t.phase ≡ settling
  pub gen : t.gen ≡ s.gen
  pub queue : t.queue ≡ s.queue
  pub index : t.index ≡ s.index + 1
  pub current : t.current ≡ some name
  pub failures : t.failures ≡ s.failures ++ (name, reason) ∷ []
  pub expect_disconnect : t.expect_disconnect ≡ true
  pub manual_disconnect : t.manual_disconnect ≡ true

mark_failure-Marked :
    (env : Env) (reason : Tag) (code : Option Tag) (message : Option Text) (c : ℕ) (name : Text)
    (s : State)
    → s.current ≡ some (c ∷ name)
    → let t = mark_failure env s.current reason code message s in
      (t.gen ≡ s.gen)
      × (t.queue ≡ s.queue)
      × (t.index ≡ s.index)
      × (t.current ≡ some (c ∷ name))
      × (t.active ≡ s.active)
      × (t.failures ≡ s.failures ++ (c ∷ name, reason) ∷ [])
unfolding mark_failure emit complete_active_attempt
mark_failure-Marked env reason code message c name s at = rw at (ground arith)

move_on-fields :
    (s : State)
    → let t = move_on s in
      (t.gen ≡ s.gen)
      × (t.queue ≡ s.queue)
      × (t.index ≡ s.index + 1)
      × (t.current ≡ s.current)
      × (t.active ≡ s.active)
      × (t.failures ≡ s.failures)
      × (t.phase ≡ settling)
      × (t.expect_disconnect ≡ true)
      × (t.manual_disconnect ≡ true)
unfolding move_on disarm_timers
move_on-fields s = ground arith

-- `advance` on a run that is trying a server notes the failure, moves on by one and waits for the
-- disconnection, whatever the backend answers.
pub advance-Advanced :
    (env : Env) (reason : Tag) (code : Option Tag) (message : Option Text) (c : ℕ) (name : Text)
    (s : State)
    → s.active ≡ true
    → s.current ≡ some (c ∷ name)
    → Advanced (c ∷ name) reason s (advance env reason code message s)
unfolding advance
advance-Advanced env reason code message c name s on at =
    let marked = mark_failure env s.current reason code message s in
    let b = is_connected env.manager in
    let noted = mark_failure-Marked env reason code message c name s at in
    rw on (
      ground (
        arith,
        noted,
        move_on-fields marked,
        asked-Framed b (move_on marked),
        arm_settle-Framed (asked b (move_on marked)),
      ))

when_current_same : (o : Option Text) (s : State) → when_current o s s ≡ s
unfolding when_current
when_current_same none s = refl
when_current_same (some _) s = refl

-- Before the deadline the button shows the time left and nothing else happens.
pub update_connect_button_timer-eq :
    (env : Env) (s : State) → env.now < s.deadline → update_connect_button_timer env s ≡ s
unfolding update_connect_button_timer
update_connect_button_timer-eq env s h =
    rw (lt→leb_false s.deadline env.now h, when_current_same s.current s) (if_same s.active s)

pub attempt_timeout-pos : (s : State) (name : Text) → 0 < attempt_timeout s name
unfolding attempt_timeout
attempt_timeout-pos s name = elim (Option-cases (latency s.latencies name)) [
  | inl e ↦ rw (attempt_timeout, e) (omega (arith, compute_attempt_timeout_bounds none))
  | inr (r, e) ↦
      rw (attempt_timeout, e) (omega (arith, compute_attempt_timeout_bounds (some (pos r))))
]

-- `_try_current_server` opens an attempt and arms its timers.
pub start_attempt-Framed :
    (env : Env) (name : Text) (s : State)
    → Framed
        (record (open_attempt env name s) { expect_disconnect = false; manual_disconnect = false })
        (start_attempt env name s)
unfolding start_attempt
start_attempt-Framed env name s =
    let opened = open_attempt env name s in
    let ready : State = record opened { expect_disconnect = false; manual_disconnect = false } in
    let chosen = select_server name ready in
    rw
      (update_connect_button_timer-eq env opened
        (unfold open_attempt in omega (arith, attempt_timeout-pos s name)))
      (Framed-trans ready chosen _ (select_server-Framed name ready) (
        Framed-trans chosen (update_banner env chosen) _ (update_banner-Framed env chosen)
          (arm_timeout_and_ticks-Framed env (update_banner env chosen))))

pub not_stale : (g : ℕ) (s : State) → s.active ≡ true → s.gen ≡ g → is_stale g s ≡ false
not_stale g s h k = ground arith

-- A live timeout of a user who is not busy gives the attempt up.
pub on_timeout-advance :
    (env : Env) (g : ℕ) (s : State)
    → is_stale g s ≡ false
    → env.user_busy ≡ false
    → (on_timeout env g s).0
      ≡ advance env Attempt.timeout
          (some Attempt.timeout)
          (some (message_or s.pending_failure_message (codes "Handshake timeout expired.")))
          (record s { timeout_id = none })
unfolding on_timeout
on_timeout-advance env g s live free = rw (live, free) refl

-- With a quiet backend the attempt ends in the call of its `connect`.
pub quiet-connects :
    (env : Env) (m : Manager) (name : Text) (s : State)
    → IsQuiet env m
    → try_server env (some name) s
      ≡ emit
          (asked_connect name)
          (record (emit watched (start_attempt env name s)) { disconnect_retries = 0 })
unfolding try_server use_manager connect_file
quiet-connects env m name s quiet = ground (arith, quiet.files name, quiet.connect name)

pub try_current-some :
    (env : Env) (o : Option Text) (s : State)
    → s.active ≡ true
    → get_elem? s.queue s.index ≡ o
    → try_current_server env s ≡ try_server env o s
unfolding try_current_server
try_current-some env o s h e = simp (h, e)

pub on_settle-live :
    (env : Env) (g : ℕ) (s : State)
    → is_stale g s ≡ false
    → (on_settle env g s).0 ≡ try_current_server env (record s { settle_id = none })
unfolding on_settle
on_settle-live env g s live = rw live refl

pub open_attempt-fields :
    (env : Env) (name : Text) (s : State)
    → let t = open_attempt env name s in
      (t.active ≡ s.active)
      × (t.phase ≡ connecting)
      × (t.gen ≡ s.gen)
      × (t.queue ≡ s.queue)
      × (t.index ≡ s.index)
      × (t.current ≡ some name)
      × (t.failures ≡ s.failures)
unfolding open_attempt
open_attempt-fields env name s = ground arith

-- Finishing keeps the generation, the queue, the position and the failures.
pub finish-fields :
    (env : Env) (phase : CascadePhase) (restore : Bool) (s : State)
    → let t = finish env phase restore s in
      (t.gen ≡ s.gen)
      × (t.queue ≡ s.queue)
      × (t.index ≡ s.index)
      × (t.current ≡ s.current)
      × (t.failures ≡ s.failures)
unfolding finish finish_succeeded finish_cancelled finish_exhausted close_run disarm_timers
    complete_active_attempt add_source emit
finish-fields env succeeded restore s = ground arith
finish-fields env cancelled restore s = ground arith
finish-fields env _ restore s = ground arith
