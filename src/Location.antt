-- ===== src/Location.antt =====
-- utils/location.js: the addresses of clients, and the cache of their locations.
mod Addresses
mod Resolver
pub mod Bounded
pub mod Faithful
mod Tests
unfoldable pub use Addresses.*
unfoldable pub use Resolver.*
