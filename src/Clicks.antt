-- ===== src/Clicks.antt =====
-- backend/worker/index.js: the worker that records clicks, checks links and ends subscriptions.
mod Classify
mod Ingest
mod Health
mod Dunning
mod Scan
pub mod Labels
pub mod Strikes
pub mod Grace
pub mod Rollups
mod Tests
unfoldable pub use Classify.*
unfoldable pub use Ingest.*
unfoldable pub use Health.*
unfoldable pub use Dunning.*
