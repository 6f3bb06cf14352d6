-- ===== src/Operations.antt =====
-- operations: heartbeats, from the queue's counters to a stored decision and a notification.
pub mod Models
pub mod Policy
pub mod Collector
pub mod Store
pub mod Service
pub mod Runner
