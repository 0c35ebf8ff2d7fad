-- ===== src/Dao.antt =====
-- internal/database/dao: the generic data access object. Its data and configuration stand in `Types`,
-- the SQL statements in `Table`, the metadata helpers in `Metadata`, the methods in `Methods` and
-- `Listing`; the other children are about them.
pub mod Types
pub mod Table
pub mod Metadata
pub mod Methods
pub mod Listing
pub mod Build
pub mod Invariant
pub mod Preserves
pub mod Calls
pub mod Visibility
pub mod Reading
pub mod Listed
pub mod Paging
pub mod Decoded
pub mod Walking
pub mod Running
pub mod Writing
pub mod Updating
pub mod Effects
pub mod Finalizers
pub mod Sample
mod Tests
