-- ===== src/Cascade/Frames.antt =====
-- What the timers, the banner and the selection leave alone.
use e_ovpn_pro.Base.{ℕ, Bool, true, false, Option, none, some, [], ◌∷◌, Text, ◌≡◌, arith}
use e_ovpn_pro.Cascade.Attempt.{Ending}
use e_ovpn_pro.Cascade.State.{
  asked_disconnect, Env, Callback, Effect, State, add_source, emit, select_server,
}
use e_ovpn_pro.Cascade.Finish.{complete_active_attempt}
use e_ovpn_pro.Cascade.Walk.{asked}
use e_ovpn_pro.Cascade.Timers.{
  current_name, disarm_timers, update_banner, arm_timeout_and_ticks, arm_settle, reselect,
}

-- `t` has the run of `s`: the two differ in the timers, the banner and the selection at most, and in
-- the calls that were made.
pub record Framed (s t : State) : Type 0 where
  pub active : t.active ≡ s.active
  pub phase : t.phase ≡ s.phase
  pub gen : t.gen ≡ s.gen
  pub queue : t.queue ≡ s.queue
  pub index : t.index ≡ s.index
  pub deadline : t.deadline ≡ s.deadline
  pub current : t.current ≡ s.current
  pub failures : t.failures ≡ s.failures
  pub attempts : t.attempts ≡ s.attempts
  pub active_attempt : t.active_attempt ≡ s.active_attempt
  pub expect_disconnect : t.expect_disconnect ≡ s.expect_disconnect
  pub manual_disconnect : t.manual_disconnect ≡ s.manual_disconnect
  pub disconnect_retries : t.disconnect_retries ≡ s.disconnect_retries
  pub message : t.pending_failure_message ≡ s.pending_failure_message

pub Framed-refl : (s : State) → Framed s s
Framed-refl s = ground arith

pub Framed-trans : (s t u : State) → Framed s t → Framed t u → Framed s u
Framed-trans s t u h k = ground arith

pub add_source-Framed : (n : ℕ) (c : Callback) (s : State) → Framed s (add_source n c s)
unfolding add_source
add_source-Framed n c s = ground arith

pub emit-Framed : (e : Effect) (s : State) → Framed s (emit e s)
unfolding emit
emit-Framed e s = ground arith

pub disarm_timers-Framed : (s : State) → Framed s (disarm_timers s)
unfolding disarm_timers
disarm_timers-Framed s = ground arith

pub select_server-Framed : (name : Text) (s : State) → Framed s (select_server name s)
unfolding select_server
select_server-Framed name s = ground arith

reselect-Framed : (name : Text) (o : Option Text) (s : State) → Framed s (reselect name o s)
unfolding reselect select_server
reselect-Framed [] o s = Framed-refl s
reselect-Framed (c ∷ name) none s = ground arith
reselect-Framed (c ∷ name) (some other) s = ground arith

pub update_banner-Framed : (env : Env) (s : State) → Framed s (update_banner env s)
unfolding update_banner
update_banner-Framed env s = ground (arith, reselect-Framed (current_name s.current) s.selected s)

pub arm_timeout_and_ticks-Framed : (env : Env) (s : State) → Framed s (arm_timeout_and_ticks env s)
unfolding arm_timeout_and_ticks disarm_timers add_source
arm_timeout_and_ticks-Framed env s = ground arith

pub arm_settle-Framed : (s : State) → Framed s (arm_settle s)
unfolding arm_settle add_source
arm_settle-Framed s = ground arith

pub asked-Framed : (b : Bool) (s : State) → Framed s (asked b s)
unfolding asked
asked-Framed true s = emit-Framed asked_disconnect s
asked-Framed false s = Framed-refl s

-- closing an attempt changes the list of attempts alone
pub complete_active_attempt-Framed :
    (env : Env) (e : Ending) (s : State)
    → Framed
        (record s { attempts = (complete_active_attempt env e s).attempts })
        (complete_active_attempt env e s)
unfolding complete_active_attempt
complete_active_attempt-Framed env e s = ground arith
