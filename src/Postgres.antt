-- ===== src/Postgres.antt =====
-- crates/metadata/src/postgres.rs: the operations of PostgresStore on Cells and on credits. A table is the list
-- of its rows, and what SQL does to it is in Rows; a connection does not fail.
pub mod Rows
pub mod Cells
pub mod Agree
pub mod Refines
pub mod Differs
pub mod Kept
pub mod Migrated
pub mod Sound
pub mod Money
pub mod Books
pub mod Gates
pub mod Admission
