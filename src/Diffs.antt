-- ===== src/Diffs.antt =====
-- app/core/diffs.py: the reader of unified diffs. `Header` parses the two path lines, `Hunk` the
-- range line, `Rebuild` runs the hunks of one file, `Apply` walks the whole diff.
pub mod Header
pub mod Hunk
pub mod Rebuild
pub mod Lines
pub mod Apply
pub mod Render
pub mod Hunks
pub mod Correct
pub mod Edges
mod Tests
