-- ===== src/Backend/Worker.antt =====
-- The queue of native operations of `NetworkManager` in eovpn/connection_manager.py, and the thread
-- that runs them. The lock makes each step below one.
pub mod Order
use e_ovpn_pro.Base.{
  Bool, true, false, not, ◌&&◌, ◌||◌, Option, none, some, List, [], ◌∷◌, ◌++◌, Text, is_some,
  if◌then◌else◌,
}

pub data Operation : Type 0 where
  connect_blocking : Text → Operation
  disconnect_blocking : Operation

-- `alive` is the thread, `running` what it executes, `started` all that it has ever begun.
pub record Worker : Type 0 where
  pub operation_queue : List Operation
  pub running : Option Operation
  pub alive : Bool
  pub operation_cancel : Bool
  pub suppress_callbacks : Bool
  pub watch : Bool
  pub started : List Operation

abbrev pub idle_worker : Worker
idle_worker = record {
  operation_queue = [];
  running = none;
  alive = false;
  operation_cancel = false;
  suppress_callbacks = false;
  watch = false;
  started = [];
}

-- `_dispatch_off_ui_thread`: a thread is started unless one is alive.
unfoldable pub dispatch_off_ui_thread : Operation → Worker → Worker
dispatch_off_ui_thread op s = record s {
  operation_queue = s.operation_queue ++ op ∷ [];
  alive = true;
}

unfoldable pub take_next : List Operation → Worker → Worker
take_next [] s = record s { alive = false }
take_next (op ∷ queue) s = record s {
  operation_queue = queue;
  running = some op;
  operation_cancel = false;
  suppress_callbacks = false;
  started = s.started ++ op ∷ [];
}

-- the locked part of a round of `_operation_runner`, when the thread gets to it
unfoldable pub begin_round : Worker → Worker
unfolding take_next
begin_round s =
    let next = take_next s.operation_queue s in
    if s.alive && not (is_some s.running) then next else s

-- the operation returns or raises
unfoldable pub end_round : Worker → Worker
end_round s = record s { running = none }

-- `cancel_current_operation`
unfoldable pub cancel_current_operation : Worker → Worker
cancel_current_operation s = record s {
  operation_cancel = true;
  suppress_callbacks = true;
  operation_queue = [];
}

-- `start_watch`, where there is a D-Bus object
unfoldable pub start_watch : Worker → Worker
start_watch s = record s { suppress_callbacks = false; watch = true }

-- `stop_watch`
unfoldable pub stop_watch : Worker → Worker
stop_watch s = record s { watch = false }

-- `_guarded_callback`: whether a signal reaches the callback
unfoldable pub guarded_callback : Worker → Bool
guarded_callback s = not s.suppress_callbacks

-- Either thread may take the next step.
pub data Move : Type 0 where
  dispatches : Operation → Move
  begins ends cancels watches unwatches : Move

unfoldable pub move : Move → Worker → Worker
move (dispatches op) s = dispatch_off_ui_thread op s
move begins s = begin_round s
move ends s = end_round s
move cancels s = cancel_current_operation s
move watches s = start_watch s
move unwatches s = stop_watch s

unfoldable pub moves : List Move → Worker → Worker
unfolding move
moves [] s = s
moves (m ∷ ms) s = moves ms (move m s)
