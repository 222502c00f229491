-- ===== src/Mcp.antt =====
-- mcp/server/permissions.js: which tools of the gateway a caller may use; and idempotency.js.
mod Permissions
mod Idempotency
pub mod Refusals
mod Tests
unfoldable pub use Permissions.*
unfoldable pub use Idempotency.*
