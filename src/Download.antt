-- ===== src/Download.antt =====
-- `download_remote_to_destination` of eovpn/utils.py, and what it calls.
pub mod Hosts
pub mod Fetch
pub mod Extract
pub mod Folder
pub mod Source
pub mod Import
