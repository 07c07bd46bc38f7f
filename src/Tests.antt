-- ===== src/Tests.antt =====
-- The theorems at concrete inputs, on tables and an association list in place of SQLite and the moka
-- cache; one file for each part of the program.
mod Kv
mod Nodes
mod Cells
mod Money
mod Meters
mod Gates
mod Backups
mod Queries
mod Cluster
mod Stores
mod Admission
