-- ===== src/Domain.antt =====
-- crates/domain: the entities that every other part shares. Identifiers, hashes and other texts
-- that the program only compares are numbers; a text that it looks into is a `String`.
mod Tests
pub mod Principal
pub mod Account
pub mod Provider
pub mod Usage
