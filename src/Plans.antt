-- ===== src/Plans.antt =====
-- services/planLimitService.js, what a user's plan allows, and the guards that ask it. Dates are counted
-- in UTC, so a day is 86 400 000 ms.
mod Defs
mod Gating
mod Guards
pub mod Frame
unfoldable pub use Defs.*
unfoldable pub use Gating.*
unfoldable pub use Guards.*
