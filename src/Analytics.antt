-- ===== src/Analytics.antt =====
-- utils/analyticsWindow.js: the time range of a report, and the buckets of its chart.
mod Window
pub mod Buckets
mod Tests
unfoldable pub use Window.*
