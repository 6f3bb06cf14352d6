-- ===== src/Artifacts/Chunking.antt =====
-- artifacts/chunking.py: the cut of an artifact into chunks at paragraphs, headings and sentences.
pub mod Patterns
pub mod Units
pub mod Pack
pub mod Chunks
pub mod Spans
pub mod Matches
pub mod Hard
pub mod Split
pub mod Order
pub mod Oversized
pub mod Cover
pub mod Packed
pub mod Cut
