-- ===== src/Table.antt =====
-- A database table as the list of its rows, with the statements that the code issues. A session
-- block runs atomically, so a statement is a function from rows to rows.
mod Defs
mod Keyed
mod Count
mod Least
mod Greatest
mod Row
mod Order
mod Members
mod Find
unfoldable pub use Defs.*
pub use Keyed.*
pub use Count.*
pub use Least.*
pub use Greatest.*
pub use Row.*
unfoldable pub use Order.*
pub use Members.*
pub use Find.*
