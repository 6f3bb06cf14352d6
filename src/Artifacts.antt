-- ===== src/Artifacts.antt =====
-- artifacts: what the Writer and the Editor produced, as it is stored and retrieved.
pub mod Chunking
pub mod Models
pub mod Store
pub mod Search
