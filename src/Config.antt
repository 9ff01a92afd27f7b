-- ===== src/Config.antt =====
-- The configuration files: eovpn/ovpn_parser.py and the pure parts of eovpn/utils.py.
pub mod Parser
pub mod Audit
pub mod Filter
pub mod Sizes
