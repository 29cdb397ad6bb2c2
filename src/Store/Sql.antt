-- ===== src/Store/Sql.antt =====
-- `UPDATE ... WHERE`, `DELETE ... WHERE`, `SELECT ... LIMIT 1`, `SELECT COUNT(*)` and `EXISTS` on the
-- list of a table's rows, and what they keep.
mod Statements
mod Rows
mod Finds
mod Counts
unfoldable pub use Statements.{
  update_where, delete_where, select_where, count_where, first_where, exists_where,
}
pub use Statements.{IsIn}
pub use Rows.*
pub use Finds.*
pub use Counts.*
