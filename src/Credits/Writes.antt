-- ===== src/Credits/Writes.antt =====
-- crates/storage/src/repo/credits.rs: the second phase of each method keeps the invariant, if what
-- it was told by the first phase is true of the row whose version it still finds.
pub mod Adjust
pub mod Hold
pub mod Settle
pub mod Close
mod Common
pub use Common.*
