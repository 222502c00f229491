-- ===== src/Links.antt =====
-- services/url.service.js, controllers/url.controller.js and the moderation of links in
-- controllers/admin.controller.js.
mod Defs
mod Edit
mod Handlers
mod Machine
pub mod Samples
pub mod Unique
pub mod Requests
pub mod Coherence
pub mod Withdrawn
pub mod Moderation
mod Tests
mod Witnesses
unfoldable pub use Defs.*
unfoldable pub use Edit.*
unfoldable pub use Handlers.*
unfoldable pub use Machine.*
