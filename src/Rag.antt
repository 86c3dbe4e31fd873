-- ===== src/Rag.antt =====
-- src/amberclaw/rag.
pub mod Chunker
mod Tests
