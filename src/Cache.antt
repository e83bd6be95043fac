-- ===== src/Cache.antt =====
-- crates/cache: the memory cache, and what is kept in it. Keys are only compared: a key stands here
-- as the number of its text, and a time is a number of seconds, as `Instant` only grows.
mod Tests
pub mod Memory
pub mod Balance
pub mod Limiter
