-- ===== src/Cascade.antt =====
-- eovpn/cascade.py, eovpn/cascade_controller.py and the attempt record of eovpn/speed_state.py.
pub mod Progress
pub mod Attempt
pub mod State
pub mod Timers
pub mod Finish
pub mod Walk
pub mod Controller
pub mod Loop
pub mod Inactive
pub mod Exhaustion
pub mod Frames
pub mod Silence
pub mod Events
pub mod Sources
pub mod Pending
pub mod Defects
