-- ===== src/SettingsWindow.antt =====
-- The handlers of eovpn/settings_window.py: the password entry and the choice of the backend.
pub mod Password
pub mod BackendChoice
