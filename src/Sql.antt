-- ===== src/Sql.antt =====
-- What the SQL statements of the program mean on a table, a list of rows in insertion order. A
-- statement's WHERE is a Boolean test of a row. ORDER BY is stable: rows with equal keys keep the
-- order of insertion, which is SQLite's order of a scan by rowid.
mod Rows
mod Order
mod Sorted
mod Keys
mod Upsert
mod Members
mod Deletes
unfoldable pub use Rows.*
unfoldable pub use Order.*
pub use Sorted.*
pub use Keys.*
unfoldable pub use Upsert.*
pub use Members.*
pub use Deletes.*
