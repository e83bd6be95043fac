-- ===== src/Api/Admin.antt =====
-- crates/api/src/handlers/admin: what an administrator or a service can do.
mod Tests
pub mod Credits
pub mod Session
pub mod State
pub mod Accounts
pub mod Tokens
pub mod Policies
pub mod Services
pub mod Providers
pub mod Models
pub mod Devices
pub mod Reports
pub mod Routes
