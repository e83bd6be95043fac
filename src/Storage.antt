-- ===== src/Storage.antt =====
-- crates/storage/src/repo: the repositories of providers and their mappings, of logical models and
-- of usage. That of credits is the module Credits.
mod Tests
pub mod Provider
pub mod Mapping
pub mod Model
pub mod Usage
pub mod Token
pub mod Account
pub mod Policy
pub mod AdminUser
pub mod ServiceAccount
pub mod AuditLog
