-- ===== src/Graphs.antt =====
-- graphs: the state of one turn, the editorial subgraph and the conversation graph.
pub mod State
pub mod Editorial
pub mod Turn
pub mod Prepare
pub mod Coordinator
pub mod Tools
pub mod Tasks
pub mod Finish
pub mod Conversation
pub mod Service
