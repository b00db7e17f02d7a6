-- ===== src/Notify.antt =====
-- `src/notify.rs`: what the process can tell the operator, how often, and in which words.
pub mod Body
pub mod Event
pub mod Footer
pub mod Plain
pub mod Render
pub mod Throttle
pub mod Worker
