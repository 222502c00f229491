-- ===== src/Billing.antt =====
-- services/billingRecovery.js: the queue of billing work, with its leases; services/billingPolicy.js: amounts and refunds.
mod Queue
pub mod Policy
pub mod Period
pub mod Leases
mod Tests
unfoldable pub use Queue.*
