-- ===== src/Cascade/State.antt =====
-- The state of `CascadeController`, what it reads of its host window and of the connection manager,
-- and the timer sources that it has pending.
use e_ovpn_pro.Base.{
  ℕ, ◌+◌, Bool, true, false, Option, none, some, List, [], ◌∷◌, ◌++◌, Text, same, any, ◌==◌,
  if◌then◌else◌,
}
use e_ovpn_pro.AutoConnect.{CascadePhase, idle}
use e_ovpn_pro.AutoConnect.Queue.{Latencies}
use e_ovpn_pro.Cascade.Attempt.{Tag, ConnectionAttempt}
use e_ovpn_pro.Cascade.Progress.{Fraction}

-- What a call of the connection manager does: it returns, or raises an exception with a message.
pub data Call (A : Type 0) : Type 0 where
  returned : A → Call A
  raised : Text → Call A

-- The answers of the manager's methods during one callback. Only the NetworkManager backend has
-- `cancel_current_operation`.
pub record Manager : Type 0 where
  pub status : Call Bool
  pub start_watch : Call (Unit {0})
  pub connect : Text → Call (Unit {0})
  pub disconnect : Call (Unit {0})
  pub can_cancel : Bool

-- What one callback reads: the monotonic and the wall clock, `CM()`, which configuration files are
-- there, and whether a modal dialog waits for the user.
pub record Env : Type 0 where
  pub now : ℕ
  pub wall : ℕ
  pub manager : Option Manager
  pub is_file : Text → Bool
  pub user_busy : Bool

-- What a pending source runs, with the generation that its closure holds.
pub data Callback : Type 0 where
  run_timeout run_tick run_settle hide_banner : ℕ → Callback

-- A source of the main loop: its id and its interval in milliseconds.
pub record Source : Type 0 where
  pub id : ℕ
  pub interval : ℕ
  pub callback : Callback

pub data Toast : Type 0 where
  no_configurations no_reachable_servers auto_connect_cancelled : Toast
  already_connected connected_to : Text → Toast
  first_of : ℕ → ℕ → Toast

-- The calls that leave the controller, in the order in which they are made.
pub data Effect : Type 0 where
  watched asked_disconnect asked_cancel activated_sort asked_speed_test : Effect
  asked_connect marked_failed : Text → Effect
  toasted : Toast → Effect

pub record State : Type 0 where
  -- the controller's fields
  pub active : Bool
  pub auto_cascade_after_test : Bool
  pub phase : CascadePhase
  pub gen : ℕ
  pub queue : List Text
  pub index : ℕ
  pub deadline : ℕ
  pub current : Option Text
  pub failures : List (Text × Tag)
  pub attempts : List ConnectionAttempt
  -- a reference into `attempts`
  pub active_attempt : Option ℕ
  pub expect_disconnect : Bool
  pub disconnect_retries : ℕ
  pub pending_failure_message : Option Text
  pub timeout_id : Option ℕ
  pub tick_id : Option ℕ
  pub settle_id : Option ℕ
  -- the host window
  pub configs : List Text
  pub rows : List Text
  pub selected : Option Text
  pub latencies : Latencies
  pub sort_by_speed_active : Bool
  pub manual_disconnect : Bool
  pub controls_locked : Bool
  pub connect_sensitive : Bool
  pub fastest_cancels : Bool
  -- hundredths
  pub progress_bar : ℕ
  pub cascade_bar : Fraction
  -- the main loop
  pub sources : List Source
  pub next_source : ℕ
  pub effects : List Effect

unfoldable pub drop_source : Option ℕ → List Source → List Source
drop_source none sources = sources
drop_source (some i) [] = []
drop_source (some i) (x ∷ sources) =
    let later = drop_source (some i) sources in if x.id == i then later else x ∷ later

-- `scheduler.add_timeout`, which returns a new id.
unfoldable pub add_source : ℕ → Callback → State → State
add_source interval callback s = record s {
  sources =
      s.sources ++ (record { id = s.next_source; interval = interval; callback = callback }) ∷ [];
  next_source = s.next_source + 1;
}

unfoldable pub emit : Effect → State → State
emit e s = record s { effects = s.effects ++ e ∷ [] }

-- `select_server_by_name`: only a row of the list can be selected.
unfoldable pub select_server : Text → State → State
select_server name s = if any (same name) s.rows then record s { selected = some name } else s

-- The controller as its constructor leaves it, in a window with its lists.
abbrev pub initial : List Text → List Text → Latencies → State
initial configs rows latencies = record {
  active = false;
  auto_cascade_after_test = false;
  phase = idle;
  gen = 0;
  queue = [];
  index = 0;
  deadline = 0;
  current = none;
  failures = [];
  attempts = [];
  active_attempt = none;
  expect_disconnect = false;
  disconnect_retries = 0;
  pending_failure_message = none;
  timeout_id = none;
  tick_id = none;
  settle_id = none;
  configs = configs;
  rows = rows;
  selected = none;
  latencies = latencies;
  sort_by_speed_active = false;
  manual_disconnect = false;
  controls_locked = false;
  connect_sensitive = true;
  fastest_cancels = false;
  progress_bar = 0;
  cascade_bar = record { num = 0; den = 1 };
  sources = [];
  next_source = 1;
  effects = [];
}
