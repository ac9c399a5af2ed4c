-- ===== src/Tests.antt =====
-- The theorems at concrete inputs.
pub mod Claims
pub mod World
pub mod Keys
pub mod Sessions
pub mod Accounts
pub mod Logins
pub mod States
pub mod Lists
pub mod Databases
pub mod Caches
pub mod Revocations
pub mod Start
pub mod Passwords
pub mod Migrations
