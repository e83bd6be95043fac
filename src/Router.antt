-- ===== src/Router.antt =====
-- crates/router-llm: the order in which providers are tried, and what an upstream error means.
mod Tests
pub mod Selector
pub mod Fallback
