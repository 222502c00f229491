-- ===== src/Access.antt =====
-- middlewares/auth.middleware.js and middlewares/role.middleware.js: who may do what, with the user
-- administration of controllers/admin.controller.js that changes it.
mod State
mod Gate
pub mod Urls
pub mod Sockets
mod Admin
pub mod Suspension
pub mod Administrators
mod LinkTests
mod Tests
unfoldable pub use State.*
unfoldable pub use Gate.*
unfoldable pub use Admin.*
