-- ===== src/Api.antt =====
-- crates/api: the errors of the HTTP interface and the handler of a chat call.
mod Tests
pub mod Error
pub mod Auth
pub mod Limits
pub mod Admin
pub mod Chat
pub mod Tun
