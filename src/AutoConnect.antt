-- ===== src/AutoConnect.antt =====
-- eovpn/auto_connect.py: the phases of a cascade, its time budgets, and the badge of a row.
-- A time is a number of microseconds, and a round-trip time a number of tenths of a millisecond,
-- the unit to which the speed test rounds.
pub mod Queue
pub mod Timeout
pub mod Badge

pub data CascadePhase : Type 0 where
  idle preparing connecting settling succeeded exhausted cancelled : CascadePhase
