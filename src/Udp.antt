-- ===== src/Udp.antt =====
-- `src/udp.rs`: sessions of UDP clients, and the segmentation offload of Linux.
pub mod Chunks
pub mod Engine
pub mod Errors
pub mod Listener
pub mod Offload
pub mod Refresh
pub mod Replies
pub mod Session
