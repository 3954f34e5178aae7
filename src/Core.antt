-- ===== src/Core.antt =====
-- internal/core: the retrieval and ingest engine.
pub mod Settings
pub mod Sorting
pub mod Scoring
pub mod ChunkBody
pub mod Snippet
pub mod Engine
pub mod Retrieve
pub mod Chunking
pub mod Ingest
