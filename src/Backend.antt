-- ===== src/Backend.antt =====
-- The backends of eovpn/connection_manager.py.
pub mod Selection
pub mod Worker
pub mod Profile
pub mod OpenVpn3
pub mod Signals
