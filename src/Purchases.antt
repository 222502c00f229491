-- ===== src/Purchases.antt =====
-- services/billing.service.js and services/billingGateway.js: checkouts, payments and refunds.
mod State
mod Gateway
mod Coupons
mod Activation
mod Attempts
mod Reserve
mod Checkout
mod Settlement
mod Balance
mod Refunds
mod Requests
mod Sync
mod Webhooks
mod OneActive
mod Withdrawal
mod Kept
mod KeptOrders
mod KeptRefunds
mod KeptSync
mod Machine
mod Settled
mod Paging
mod Totals
mod Verified
mod Repeated
mod Released
mod Samples
mod Tests
unfoldable pub use State.*
unfoldable pub use Gateway.*
unfoldable pub use Coupons.*
unfoldable pub use Activation.*
unfoldable pub use Attempts.*
unfoldable pub use Reserve.*
unfoldable pub use Checkout.*
unfoldable pub use Settlement.*
unfoldable pub use Balance.*
unfoldable pub use Refunds.*
unfoldable pub use Requests.*
unfoldable pub use Sync.*
unfoldable pub use Webhooks.*
