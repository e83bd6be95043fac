-- ===== src/Api/Auth.antt =====
-- crates/api/src/middleware: who a request comes from, and what that caller may do.
pub mod Token
pub mod Admin
