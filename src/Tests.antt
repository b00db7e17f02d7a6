-- ===== src/Tests.antt =====
-- The theorems at concrete values, a module for each part of the program.
mod Alerts
mod Connecting
mod Delivery
mod Entries
mod Live
mod Messages
mod Page
mod Probes
mod Reload
mod Runs
mod Tcp
mod Udp
