-- ===== src/Memory.antt =====
-- The notes that agents keep on a job: app/context and app/agents/archivist_agent.py.
pub mod Notes
pub mod NoteLaws
pub mod Archive
pub mod ArchiveLaws
mod Tests
