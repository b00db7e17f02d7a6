-- ===== src/Config.antt =====
-- `src/config.rs`: the forwarder list, the settings, and where both come from.
pub mod Forwarder
pub mod PortSpan
pub mod Spec
pub mod Expand
pub mod Entry
pub mod Yaml
pub mod Settings
pub mod Knobs
pub mod Cli
pub mod Load
