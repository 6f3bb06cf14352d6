-- ===== src/Domain.antt =====
-- domain: the objects that the graphs pass on.
pub mod Editorial
pub mod Routing
pub mod Conversation
pub mod Tasks
pub mod Validity
