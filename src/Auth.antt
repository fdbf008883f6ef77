-- ===== src/Auth.antt =====
-- backend/auth: rate limits, the lockout of accounts, sessions and their refresh tokens, and the
-- handlers of auth_service.py.
pub mod Database
pub mod Outside
pub mod RateLimit
pub mod Limits
pub mod Lockout
pub mod LockoutLaws
pub mod LockoutRun
pub mod Sessions
pub mod SessionLaws
pub mod World
pub mod Login
pub mod LoginLaws
pub mod LoginFailures
pub mod TwoFactor
pub mod TwoFactorLaws
pub mod Recovery
pub mod RecoveryLaws
pub mod Links
pub mod Registration
pub mod PasswordReset
pub mod LinkLaws
pub mod LinkUse
pub mod ResetUse
pub mod Search
pub mod Refresh
pub mod RefreshLaws
pub mod Samples
mod Tests
mod LoginTests
mod LinkTests
