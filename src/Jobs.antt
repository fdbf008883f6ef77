-- ===== src/Jobs.antt =====
-- app/db, app/workers/job_worker.py and the routes of app/routers that change jobs.
pub mod Tables
pub mod World
pub mod Charges
pub mod Worker
pub mod Spec
pub mod Refines
pub mod Ends
pub mod Bounds
pub mod Writes
pub mod Totals
pub mod Cancel
pub mod Final
mod Tests
