-- ===== src/Credits.antt =====
-- The package credits/: a ledger over a materialized balance, and what is built on it.
pub mod Errors
pub mod Db
pub mod Accounts
pub mod Validate
pub mod Ledger
pub mod Reservation
pub mod Reconcile
pub mod Subscription
pub mod Monthly
pub mod Pricing
pub mod Usage
pub mod Sound
pub mod Charge
pub mod Settlement
pub mod System
pub mod Byok
pub mod Tests
