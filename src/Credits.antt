-- ===== src/Credits.antt =====
-- crates/storage/src/repo/credits.rs: `CreditsRepo`. A method runs in one transaction: it reads,
-- and then writes under the condition that the version which it read still stands. The two phases
-- are separate functions, so that other transactions can be put between them (`Concurrent`).
-- A fresh UUID is an argument; where it is taken already, the primary key refuses the insert and
-- the transaction rolls back. A row of `credits` has its account by a foreign key.
pub mod Ledger
pub mod Sums
pub mod Invariant
pub mod Adjust
pub mod Hold
pub mod Settle
pub mod Writes
pub mod Methods
pub mod Effects
pub mod Lifecycle
pub mod Queries
pub mod Exact
pub mod Once
pub mod Concurrent
pub mod Samples
mod Tests
