-- ===== src/Audit.antt =====
-- The audit log of the administration pages: backend/admin/services.py.
pub mod Log
pub mod Csv
pub mod Order
pub mod Export
pub mod Sorting
mod Tests
