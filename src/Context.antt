-- ===== src/Context.antt =====
-- app/context: the text that an agent is given, cut to a budget of tokens.
pub mod Compactor
pub mod Selection
pub mod Excerpts
pub mod Budget
pub mod Cap
mod Tests
