-- ===== src/Teams.antt =====
-- controllers/team.controller.js.
mod State
mod Handlers
mod Rows
mod Owners
mod Tests
unfoldable pub use State.*
unfoldable pub use Handlers.*
