-- ===== src/Repository.antt =====
-- repositories/url.repository.js: the SQL statements on the table "Url". The only constraint of the
-- table that the statements can break here is the unique index on `short_code`.
mod Defs
pub mod Unique
unfoldable pub use Defs.*
