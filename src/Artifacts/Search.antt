-- ===== src/Artifacts/Search.antt =====
-- artifacts: the search of stored drafts, by fused rankings of chunks.
pub mod Types
pub mod Fusion
pub mod Dense
pub mod Lexical
pub mod Hybrid
pub mod Order
pub mod Lookup
pub mod Fused
pub mod Retriever
pub mod Origin
pub mod Results
pub mod Relevance
pub mod Cached
