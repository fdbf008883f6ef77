-- ===== src/Subscription.antt =====
-- backend/subscription: the plan of a user, its quotas, and the usage that is counted.
pub mod Usage
pub mod UsageLaws
mod Tests
