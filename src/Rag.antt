-- ===== src/Rag.antt =====
-- backend/rag: the crawler of websites, its tables, and the embeddings of pages.
pub mod Pages
pub mod Crawler
pub mod Queue
pub mod Once
pub mod Stops
pub mod Reach
pub mod Handled
pub mod Exact
pub mod Store
pub mod StoreLaws
pub mod Unembedded
pub mod Chunks
pub mod ChunkLaws
mod ChunkTests
mod Tests
