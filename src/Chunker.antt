-- ===== src/Chunker.antt =====
-- The chunker of backend/app/retrieval/chunker.py.
pub mod Source
pub mod Windows
pub mod Uncovered
pub mod Ordering
pub mod Drafts
pub mod Deduplicate
pub mod Build
mod Examples
