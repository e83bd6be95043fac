-- ===== src/Billing.antt =====
-- crates/billing: the price of a call in credits, and the count of tokens it is computed from.
mod Tests
pub mod Rates
pub mod Estimator
pub mod UsageSource
