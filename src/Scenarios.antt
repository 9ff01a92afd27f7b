-- ===== src/Scenarios.antt =====
-- The theorems at concrete inputs, and runs of the code.
mod QueueRuns
mod CascadeRuns
mod ConfigRuns
mod BackendRuns
mod DownloadRuns
mod SpeedRuns
mod MonitorRuns
mod SettingsRuns
mod ImportRuns
mod OpenVpnRuns
mod WindowRuns
mod PasswordRuns
