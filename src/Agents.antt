-- ===== src/Agents.antt =====
-- agents/parsing.py: the strict reading of what a model answers.
pub mod Json
pub mod Parsing
pub mod Strict
pub mod Encoded
