-- ===== src/Account.antt =====
-- backend/account: the plans of users, their spending and its cap.
pub mod Tables
pub mod Spending
pub mod Plans
pub mod CapLaws
pub mod PlanLaws
pub mod Returns
pub mod Requests
mod Tests
