-- ===== src/Tests.antt =====
-- Concrete inputs for the theorems: a conversation, a store, a queue and the operations of a heartbeat.
mod Fixtures
mod Chunks
mod Searches
mod Vectors
mod Parsed
mod Turns
mod Writing
mod Stores
mod Queues
mod Heartbeats
mod Values
mod Messages
mod Updates
